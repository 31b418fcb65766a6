-- ===== src/Router/Problems/Runs.antt =====
-- src/aiops_apm/router/problems.py: analyze_problem and record_run_decision, which bind the runs of
-- the workflow service to a record. The store is read again after the call of the service, and may
-- have changed meanwhile: `later` is what the handler finds then.
pub mod Decisions
pub mod Binding
use aiops_apm_anomaly_detect.Prelude.{
  ℕ, String, Bool, true, false, not, ◌&&◌, ◌||◌, Option, none, some, List, [], ◌∷◌, leb, or_else,
  if◌then◌else◌, str_eq,
}
use aiops_apm_anomaly_detect.Prelude.Strip.{strip}
use aiops_apm_anomaly_detect.Prelude.Text.{concat}
use aiops_apm_anomaly_detect.Errors.{Error, Result, ok, err, ◌>>=◌, ◌>>◌, guard}
use aiops_apm_anomaly_detect.Models.Value.{
  Value, fields, lookup, entry_get, is_text, truthy, printed,
}
use aiops_apm_anomaly_detect.Storage.Records.{
  Row, Rows, agent_run, append_evidence, mark_in_progress,
}
use aiops_apm_anomaly_detect.Router.Evidence.{run_decisions, first_entry}
use aiops_apm_anomaly_detect.Router.Outbound.{
  Outcome, Response, timed_out, failed, answered, conflict, upstream, validation, body_field,
  resp_detail,
}
use aiops_apm_anomaly_detect.Router.Problems.{fetched, is_terminal, primary_service, state_of}

-- What the handlers have of the application: the printing of values, the text for a run that timed
-- out, the text of a timeout, and what the outbound gateway says of the configured address.
pub record Service : Type 0 where
  pub show_value : Value → String
  pub show_int : ℕ → String
  pub show_padded : ℕ → String
  pub timeout_reason : String
  pub timeout_text : String
  pub gateway : Result (Unit {0})

module _ (s : Service) where
  abbrev run_id_in : String → Option Value → Result String
  unfolding concat
  run_id_in action v =
      let run_id = printed s.show_value v in
      if str_eq run_id ""
      then err (upstream (concat (action ∷ " returned no run_id" ∷ [])))
      else ok run_id

  abbrev run_id_of : String → Response → Result String
  unfolding lookup concat resp_detail
  run_id_of action r =
      if leb 300 r.status_code
      then err (
          upstream (
            concat (
              action
              ∷ " failed: HTTP "
              ∷ s.show_int r.status_code
              ∷ " "
              ∷ resp_detail s.show_value r
              ∷ [])))
      else (body_field r.json "run_id" (concat (action ∷ " returned invalid body" ∷ []))
          >>= run_id_in action)

  -- The run that `POST /run` started; `action` names the call in the errors.
  unfoldable pub started_run : String → Outcome → Result String
  unfolding concat lookup resp_detail
  started_run action timed_out = err (upstream s.timeout_reason)
  started_run action (failed text) = err (upstream (concat (action ∷ " failed: " ∷ text ∷ [])))
  started_run action (answered r) = run_id_of action r

  -- The guards, before any call of the service.
  unfoldable pub analysis_guards : Rows → String → String → String → Bool → Result Row
  unfolding strip fetched primary_service concat
  analysis_guards rows tenant_id record_id workflow_id rerun = do
    guard (not (str_eq (strip workflow_id) "")) (validation "workflow_id is required")
    row ← fetched rows tenant_id record_id
    guard (not (is_terminal (state_of row))) (
        conflict
          (concat ("problem " ∷ record_id ∷ " is " ∷ state_of row ∷ "; analysis not allowed" ∷ [])))
    guard (str_eq (state_of row) "pending" || rerun) (
        conflict
          (concat ("problem " ∷ record_id ∷ " is not pending (state=" ∷ state_of row ∷ ")" ∷ [])))
    guard (not (str_eq (primary_service row) "")) (validation "no service available for analysis")
    s.gateway
    ok row

  -- The rows after the binding of a run, which is told whether the store took it.
  abbrev pub bound_or : Rows → Error → String → Result (Bool × Rows) → Rows × Result String
  bound_or later refusal run_id (err failure) = (later, err failure)
  bound_or later refusal run_id (ok (true, after)) = (after, ok run_id)
  bound_or later refusal run_id (ok (false, after)) = (after, err refusal)

  -- The binding of a run to the record, after the call.
  unfoldable pub bind_run :
      Rows → ℕ → String → String → String → String → Bool → Rows × Result String
  unfolding mark_in_progress append_evidence agent_run concat
  bind_run later now tenant_id record_id run_id workflow_id true =
      bound_or later
        (conflict (concat ("problem " ∷ record_id ∷ " was concurrently moved out of pending" ∷ [])))
        run_id (mark_in_progress later now tenant_id record_id run_id workflow_id)
  bind_run later now tenant_id record_id run_id workflow_id false =
      bound_or later (conflict (concat ("problem " ∷ record_id ∷ " vanished before binding" ∷ [])))
        run_id (append_evidence later tenant_id record_id (agent_run now run_id workflow_id))

  abbrev pub run_bound :
      Rows → ℕ → String → String → String → Bool → Result String → Rows × Result String
  unfolding strip bind_run
  run_bound later now tenant_id record_id workflow_id pending (err failure) = (later, err failure)
  run_bound later now tenant_id record_id workflow_id pending (ok run_id) =
      bind_run later now tenant_id record_id run_id (strip workflow_id) pending

  abbrev pub run_started :
      Rows → Rows → ℕ → String → String → String → Outcome → Result Row → Rows × Result String
  unfolding started_run run_bound
  run_started rows later now tenant_id record_id workflow_id outcome (err failure) =
      (rows, err failure)
  run_started rows later now tenant_id record_id workflow_id outcome (ok row) =
      run_bound later now tenant_id record_id workflow_id (str_eq (state_of row) "pending")
        (started_run "agent workflow run start" outcome)

  -- The reply has the state and the run; it says "in_progress" whatever the store says.
  abbrev pub replied : Rows × Result String → Rows × Result (String × String)
  replied (rows, err failure) = (rows, err failure)
  replied (rows, ok run_id) = (rows, ok ("in_progress", run_id))

  -- The rows after the handler, and its reply or what it raised.
  unfoldable pub analyze_problem :
      Rows → Rows → ℕ → String → String → String → Bool → Outcome → Rows × Result (String × String)
  unfolding analysis_guards run_started
  analyze_problem rows later now tenant_id record_id workflow_id rerun outcome = replied (
      run_started rows later now tenant_id record_id workflow_id outcome
        (analysis_guards rows tenant_id record_id workflow_id rerun))

-- The body of a decision on a run.
pub record RunDecisionBody : Type 0 where
  pub run_id : String
  pub node_id : String
  pub approved : Bool
  pub decided_by : String
  pub comment : String

pub record RunDecisionReply : Type 0 where
  pub run_id : String
  pub node_id : String
  pub approved : Bool
  pub recorded : Bool

abbrev pub node_of : String → String
unfolding strip
node_of node_id = if str_eq (strip node_id) "" then "approve-plan" else strip node_id

-- The entry is the decision on this node of this run.
unfoldable pub decides : String → String → Value → Bool
unfolding lookup
decides run_id node_id e =
    is_text (entry_get e "run_id") run_id && is_text (entry_get e "node_id") node_id

unfoldable pub decision_entry : ℕ → String → String → RunDecisionBody → Value
unfolding fields
decision_entry now run_id node_id body = Value.obj (
    fields (
      ("type", Value.str "run_decision")
      ∷ ("run_id", Value.str run_id)
      ∷ ("node_id", Value.str node_id)
      ∷ ("approved", Value.bool body.approved)
      ∷ ("by", Value.str body.decided_by)
      ∷ ("comment", Value.str body.comment)
      ∷ ("decided_at", Value.time now)
      ∷ []))

abbrev pub recorded_decision :
    Rows → Error → RunDecisionReply → Result (Bool × Rows) → Rows × Result RunDecisionReply
recorded_decision rows missing reply (err failure) = (rows, err failure)
recorded_decision rows missing reply (ok (true, after)) = (after, ok reply)
recorded_decision rows missing reply (ok (false, after)) = (after, err missing)

abbrev pub noted_decision :
    Rows
    → ℕ
    → String
    → String
    → String
    → String
    → RunDecisionBody
    → Option Value
    → Rows × Result RunDecisionReply
unfolding append_evidence decision_entry concat lookup
noted_decision rows now tenant_id record_id run_id node_id body (some e) = (
  rows,
  ok (record {
    run_id = run_id;
    node_id = node_id;
    approved = truthy (entry_get e "approved");
    recorded = false;
  }),
)
noted_decision rows now tenant_id record_id run_id node_id body none =
    recorded_decision rows
      (conflict (concat ("problem " ∷ record_id ∷ " vanished before recording" ∷ [])))
      (record { run_id = run_id; node_id = node_id; approved = body.approved; recorded = true })
      (append_evidence rows tenant_id record_id (decision_entry now run_id node_id body))

abbrev pub decided_on :
    Rows → ℕ → String → String → RunDecisionBody → Result Row → Rows × Result RunDecisionReply
unfolding strip run_decisions decides noted_decision node_of
decided_on rows now tenant_id record_id body (err failure) = (rows, err failure)
decided_on rows now tenant_id record_id body (ok row) =
    if str_eq (strip body.run_id) ""
    then (rows, err (validation "run_id is required"))
    else noted_decision rows now tenant_id record_id (strip body.run_id) (node_of body.node_id) body
        (first_entry (decides (strip body.run_id) (node_of body.node_id))
          (run_decisions row.base.evidence))

-- The rows after the handler, and its reply or what it raised.
unfoldable pub record_run_decision :
    Rows → ℕ → String → String → RunDecisionBody → Rows × Result RunDecisionReply
unfolding fetched decided_on
record_run_decision rows now tenant_id record_id body =
    decided_on rows now tenant_id record_id body (fetched rows tenant_id record_id)
