-- ===== src/Router/Problems/Escalate.antt =====
-- src/aiops_apm/router/problems.py, escalate_problem: a record is handed over as a repair ticket of
-- the workflow service. `later` is the store after the calls of the service.
pub mod Once
use aiops_apm_anomaly_detect.Prelude.{
  ℕ, String, Bool, true, false, not, ◌&&◌, Option, none, some, List, [], ◌∷◌, keep, leb, or_else,
  if◌then◌else◌, str_eq,
}
use aiops_apm_anomaly_detect.Prelude.Sort.{sort_by}
use aiops_apm_anomaly_detect.Prelude.Strip.{strip}
use aiops_apm_anomaly_detect.Prelude.Text.{concat, text_leb}
use aiops_apm_anomaly_detect.Errors.{Error, Result, ok, err, ◌>>=◌, ◌>>◌, guard, type_error}
use aiops_apm_anomaly_detect.Models.Value.{
  Value, Fields, fields, lookup, entry_get, truthy, printed, text_value,
}
use aiops_apm_anomaly_detect.Storage.Records.{Row, Rows, append_evidence, mark_escalated}
use aiops_apm_anomaly_detect.Storage.Sequence.{Counters, next_ticket_number}
use aiops_apm_anomaly_detect.Router.Evidence.{created_ticket}
use aiops_apm_anomaly_detect.Router.Outbound.{
  Outcome, Response, timed_out, failed, answered, conflict, upstream, not_found, resp_detail,
}
use aiops_apm_anomaly_detect.Router.Problems.{fetched, is_terminal, state_of}
use aiops_apm_anomaly_detect.Router.Problems.Runs.{Service}

-- The ticket that the service created.
pub record Created : Type 0 where
  pub ticket_id : String
  pub ticket_number : String

abbrev pub held_ticket : (Value → String) → Value → String
unfolding lookup
held_ticket show e =
    if truthy (entry_get e "ticket_number")
    then printed show (entry_get e "ticket_number")
    else printed show (entry_get e "ticket_id")

module _ (s : Service) where
  abbrev pub no_ticket : String → Option Value → Result (Unit {0})
  unfolding concat held_ticket
  no_ticket record_id none = ok tt
  no_ticket record_id (some e) = err (
      conflict (
        concat
          ("problem " ∷ record_id ∷ " already holds ticket " ∷ held_ticket s.show_value e ∷ [])))

  -- The guards, before any call of the service.
  unfoldable pub escalation_guards : Rows → String → String → Result Row
  unfolding fetched created_ticket no_ticket concat
  escalation_guards rows tenant_id record_id = do
    row ← fetched rows tenant_id record_id
    no_ticket record_id (created_ticket row.base.evidence)
    guard (not (is_terminal (state_of row))) (
        conflict
          (concat ("problem " ∷ record_id ∷ " is " ∷ state_of row ∷ "; escalate not allowed" ∷ [])))
    ok row

  -- `str(w.get(key) or "")`
  abbrev text_at : String → Value → String
  unfolding lookup
  text_at key w = printed s.show_value (entry_get w key)

  abbrev first_id : String → List Value → Result String
  unfolding concat lookup
  first_id name [] = err (not_found (concat ("workflow「" ∷ name ∷ "」不在库里（被删或改名了）" ∷ [])))
  first_id name (w ∷ ws) = ok (text_at "id" w)

  -- The id of the latest workflow of the name; `listing` is `none` when the service is unreachable.
  unfoldable pub resolve_workflow_id : Option (List Value) → String → Result String
  unfolding strip sort_by first_id lookup
  resolve_workflow_id listing given =
      let name = strip given in
      if str_eq name "" then ok "" else elim listing [
        | none ↦ err (upstream "list workflows failed: agentflow 不可达")
        | some ws ↦ first_id name (
            sort_by (λ v w. text_leb (text_at "created_at" w) (text_at "created_at" v))
              (keep (λ w. str_eq (text_at "name" w) name && truthy (entry_get w "id")) ws))
      ]

  abbrev pub created_in : Option Value → Option Value → Result Created
  created_in id number =
      let ticket_id = printed s.show_value id in
      if str_eq ticket_id ""
      then err (upstream "create ticket returned no id")
      else ok (record { ticket_id = ticket_id; ticket_number = printed s.show_value number })

  -- A body that is no dictionary has no `get`.
  abbrev pub created_from : Option Value → Result Created
  unfolding lookup created_in
  created_from none = err (upstream "create ticket returned invalid body")
  created_from (some (Value.obj d)) = created_in (lookup d "id") (lookup d "number")
  created_from (some v) = if truthy (some v) then err type_error else created_in none none

  -- What the answer of `POST /tickets` gives.
  unfoldable pub create_ticket : Outcome → Result Created
  unfolding concat resp_detail created_from
  create_ticket timed_out = err (upstream (concat ("create ticket failed: " ∷ s.timeout_text ∷ [])))
  create_ticket (failed text) = err (upstream (concat ("create ticket failed: " ∷ text ∷ [])))
  create_ticket (answered r) =
      if leb 300 r.status_code
      then err (
          upstream (
            concat (
              "create ticket failed: HTTP "
              ∷ s.show_int r.status_code
              ∷ " "
              ∷ resp_detail s.show_value r
              ∷ [])))
      else created_from r.json

abbrev text_or_null : String → Value
text_or_null s = if str_eq s "" then Value.null else Value.str s

-- The evidence of an escalation by hand.
unfoldable pub escalation_entry : ℕ → Created → String → Value
unfolding fields
escalation_entry now c workflow_name = Value.obj (
    fields (
      ("type", Value.str "diagnose_decision")
      ∷ ("decision", Value.str "escalate")
      ∷ ("engine", Value.str "manual")
      ∷ ("ticket_id", Value.str c.ticket_id)
      ∷ ("ticket_number", Value.str c.ticket_number)
      ∷ ("workflow_name", text_or_null workflow_name)
      ∷ ("decided_at", Value.time now)
      ∷ []))

abbrev pub escalated_reason : String → String
unfolding concat
escalated_reason ticket_number =
    if str_eq ticket_number "" then "escalated" else concat ("escalated:" ∷ ticket_number ∷ [])

-- `_apply_escalated_state`, for the decision to escalate.
unfoldable pub apply_escalated_state : Rows → ℕ → String → String → String → Result Rows
unfolding mark_escalated escalated_reason
apply_escalated_state rows now tenant_id record_id ticket_number =
    mark_escalated rows now tenant_id record_id (escalated_reason ticket_number)

-- What a request meets: the clock and its date, the name of the workflow that the body gives, the list
-- of workflows, the answer of the service to the number of the ticket, and the store after it.
pub record Call : Type 0 where
  pub now : ℕ
  pub seq_date : String
  pub workflow_name : String
  pub listing : Option (List Value)
  pub answer : String → Outcome
  pub later : Rows

module _ (s : Service) where
  module _ (tenant_id record_id : String) (call : Call) where
    abbrev pub state_written : Rows → Created → Result Rows → Rows × Result Created
    state_written noted created (err failure) = (noted, err failure)
    state_written noted created (ok after) = (after, ok created)

    abbrev pub evidence_written : Created → Result (Bool × Rows) → Rows × Result Created
    unfolding apply_escalated_state
    evidence_written created (err failure) = (call.later, err failure)
    evidence_written created (ok (done, noted)) =
        state_written noted created
          (apply_escalated_state noted call.now tenant_id record_id created.ticket_number)

    -- The writes, after the ticket is there: the evidence before the state; whether the evidence was
    -- written is not asked.
    abbrev pub write_escalation : Result Created → Rows × Result Created
    unfolding strip append_evidence evidence_written escalation_entry
    write_escalation (err failure) = (call.later, err failure)
    write_escalation (ok created) = evidence_written created (
        append_evidence call.later tenant_id record_id
          (escalation_entry call.now created (strip call.workflow_name)))

    abbrev pub handed_over : Rows → String → Result (Unit {0}) → Rows × Result Created
    unfolding create_ticket write_escalation
    handed_over rows number (err failure) = (rows, err failure)
    handed_over rows number (ok allowed) = write_escalation (create_ticket s (call.answer number))

    -- The number is taken from the sequence before the gateway and the service are asked.
    abbrev pub numbered_call : Rows → Counters → Result String → Counters × Rows × Result Created
    unfolding next_ticket_number handed_over
    numbered_call rows counters (err failure) = (counters, rows, err failure)
    numbered_call rows counters (ok workflow_id) =
        let (number, taken) = next_ticket_number s.show_padded counters call.seq_date in
        let (after, outcome) = handed_over rows number s.gateway in (taken, after, outcome)

  -- The sequence and the rows after the handler, and its ticket or what it raised.
  unfoldable pub escalate_problem :
      Rows → Counters → String → String → Call → Counters × Rows × Result Created
  unfolding escalation_guards resolve_workflow_id numbered_call
  escalate_problem rows counters tenant_id record_id call =
      numbered_call tenant_id record_id call rows counters (
        escalation_guards s rows tenant_id record_id >>= λ row.
        resolve_workflow_id s call.listing call.workflow_name)
