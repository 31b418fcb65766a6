-- ===== src/Router/Problems/Runs/Binding.antt =====
-- Lemmas on analyze_problem of src/aiops_apm/router/problems.py and the run that it binds.
use aiops_apm_anomaly_detect.Prelude.{
  ℕ, ◌≡◌, refl, ap, subst, ◌∙◌, ◌⊎◌, inl, inr, String, Bool, true, false, not, Option, some, List,
  [], ◌∷◌, ◌++◌, arith, Bool-cases, ◌&&◌, ◌||◌, leb, keep, keep-append, if◌then◌else◌, str_eq,
  str_eq_refl, str_eq_iff,
}
use aiops_apm_anomaly_detect.Prelude.Dict as Dict
use aiops_apm_anomaly_detect.Prelude.Dict.{string_key, get-put}
use aiops_apm_anomaly_detect.Prelude.Strip.{strip}
use aiops_apm_anomaly_detect.Prelude.Text.{concat}
use aiops_apm_anomaly_detect.Errors.{Error, Result, ok, err, guard-ok, >>=-eq-ok}
use aiops_apm_anomaly_detect.Models.Value.{Value, fields, lookup, entry_get, truthy, is_text}
use aiops_apm_anomaly_detect.Storage.Records.{
  Row, Rows, agent_run, append_evidence, mark_in_progress,
}
use aiops_apm_anomaly_detect.Storage.Records.Writes.{
  Owned, noted_row, claimed_row, append_evidence-done, mark_in_progress-done,
}
use aiops_apm_anomaly_detect.Router.Evidence.{
  agent_run_entries, latest_agent_run, last_of, has_type,
}
use aiops_apm_anomaly_detect.Router.Outbound.{
  Outcome, Response, timed_out, failed, answered, body_field,
}
use aiops_apm_anomaly_detect.Router.Problems.{fetched, is_terminal, state_of, primary_service}
use aiops_apm_anomaly_detect.Router.Problems.Fetched.{fetched-Owned}
use aiops_apm_anomaly_detect.Router.Problems.Runs.{
  replied, Service, run_id_in, run_id_of, started_run, analysis_guards, bind_run, bound_or,
  run_bound, run_started, analyze_problem,
}

run_id_in-id :
    (s : Service) (action : String) (v : Option Value) (id : String)
    → run_id_in s action v ≡ ok id
    → str_eq id "" ≡ false
unfolding run_id_in
run_id_in-id s action v id e = ground arith

run_id_of-id :
    (s : Service) (action : String) (r : Response) (id : String)
    → run_id_of s action r ≡ ok id
    → str_eq id "" ≡ false
unfolding run_id_of concat
run_id_of-id s action r id e = elim (Bool-cases (leb 300 r.status_code)) [
  | inl bad ↦ absurd (ground arith)
  | inr good ↦
      let body = body_field r.json "run_id" (concat (action ∷ " returned invalid body" ∷ [])) in
      let (v, got, rest) = >>=-eq-ok body (run_id_in s action) (rw good at e) in
      run_id_in-id s action v id rest
]

-- A run that was started has an id.
started_run-id :
    (s : Service) (action : String) (outcome : Outcome) (id : String)
    → started_run s action outcome ≡ ok id
    → str_eq id "" ≡ false
unfolding started_run
started_run-id s action timed_out id e = absurd (ground arith)
started_run-id s action (failed text) id e = absurd (ground arith)
started_run-id s action (answered r) id e = run_id_of-id s action r id e

last_of-append : (es : List Value) (e : Value) → last_of (es ++ e ∷ []) ≡ some e
last_of-append [] e = refl
last_of-append (d ∷ []) e = refl
last_of-append (d ∷ f ∷ es) e = last_of-append (f ∷ es) e

abbrev is_run : Value → Bool
unfolding lookup
is_run e = has_type "agent_run" e && truthy (entry_get e "run_id")

-- A run with an id that is added at the end of the evidence is the latest.
latest_agent_run-append :
    (es : List Value) (now : ℕ) (run_id workflow_id : String)
    → str_eq run_id "" ≡ false
    → latest_agent_run (es ++ agent_run now run_id workflow_id ∷ [])
      ≡ some (agent_run now run_id workflow_id)
unfolding latest_agent_run agent_run_entries agent_run fields lookup is_run
latest_agent_run-append es now run_id workflow_id h =
    let entry = agent_run now run_id workflow_id in
    let kept : keep is_run (entry ∷ []) ≡ entry ∷ [] = rw h refl in
    rw (keep-append is_run es (entry ∷ []), kept) (last_of-append (keep is_run es) entry)

-- What the binding of a run makes of the row that the store has then.
abbrev bound_row : Bool → ℕ → String → String → Row → Row
bound_row was_pending now run_id workflow_id row =
    let entry = agent_run now run_id workflow_id in
    if was_pending then claimed_row row entry else noted_row row entry

abbrev Bound : Rows → Rows → ℕ → String → String → String → String → Bool → Type 0
Bound later after now tenant_id record_id run_id workflow_id was_pending =
    (row : Row) × Owned later tenant_id record_id row
    × ((was_pending ≡ false) ⊎ (str_eq row.base.state "pending" ≡ true))
    × (after ≡ Dict.put later record_id (bound_row was_pending now run_id workflow_id row))

bound_or-ok :
    (s : Service) (later : Rows) (refusal : Error) (id run_id : String) (m : Result (Bool × Rows))
    (after : Rows)
    → bound_or s later refusal id m ≡ (after, ok run_id)
    → (m ≡ ok (true, after)) × (id ≡ run_id)
bound_or-ok s later refusal id run_id (err e) after h = absurd (ground arith)
bound_or-ok s later refusal id run_id (ok (true, rows)) after h = (ground arith, ground arith)
bound_or-ok s later refusal id run_id (ok (false, rows)) after h = absurd (ground arith)

bind_run-Bound :
    (s : Service) (later after : Rows) (now : ℕ)
    (tenant_id record_id id run_id workflow_id : String) (was_pending : Bool)
    → bind_run s later now tenant_id record_id id workflow_id was_pending ≡ (after, ok run_id)
    → Bound later after now tenant_id record_id id workflow_id was_pending × (id ≡ run_id)
unfolding bind_run concat
bind_run-Bound s later after now tenant_id record_id id run_id workflow_id true e =
    let (took, same_id) =
      bound_or-ok s later _ id run_id
        (mark_in_progress later now tenant_id record_id id workflow_id) after e in
    let (row, o, pending, same) =
      mark_in_progress-done later tenant_id record_id now id workflow_id after took in
    ((row, o, inr pending, same), same_id)
bind_run-Bound s later after now tenant_id record_id id run_id workflow_id false e =
    let entry = agent_run now id workflow_id in
    let (took, same_id) =
      bound_or-ok s later _ id run_id (append_evidence later tenant_id record_id entry) after e in
    let (row, o, same) = append_evidence-done later tenant_id record_id entry after took in
    ((row, o, inl refl, same), same_id)

-- What an answered analysis has done: `row` is what the handler read, `found` what the store has when
-- the run was started, and `bound` what it has afterwards.
pub record Analysis (rows later after : Rows) (tenant_id record_id run_id : String) : Type 0 where
  pub row : Row
  pub found : Row
  pub bound : Row
  pub entry : Value
  pub read : Owned rows tenant_id record_id row
  pub kept : Owned later tenant_id record_id found
  pub live : is_terminal (state_of row) ≡ false
  pub named : str_eq run_id "" ≡ false
  pub stored : after ≡ Dict.put later record_id bound
  pub noted : bound.base.evidence ≡ found.base.evidence ++ entry ∷ []
  pub shown : latest_agent_run bound.base.evidence ≡ some entry
  pub names : is_text (entry_get entry "run_id") run_id ≡ true
  pub state :
      ((state_of row ≡ "pending")
        × (found.base.state ≡ "pending")
        × (bound.base.state ≡ "in_progress"))
      ⊎ (bound.base.state ≡ found.base.state)

analysis_guards-live :
    (s : Service) (rows : Rows) (tenant_id record_id workflow_id : String) (rerun : Bool)
    (row : Row)
    → analysis_guards s rows tenant_id record_id workflow_id rerun ≡ ok row
    → Owned rows tenant_id record_id row × (is_terminal (state_of row) ≡ false)
unfolding analysis_guards concat primary_service
analysis_guards-live s rows tenant_id record_id workflow_id rerun row e =
    let (g, e1) = guard-ok (not (str_eq (strip workflow_id) "")) _ _ e in
    let (r, got, e2) = >>=-eq-ok (fetched rows tenant_id record_id) _ e1 in
    let (live, e3) = guard-ok (not (is_terminal (state_of r))) _ _ e2 in
    let (may, e4) = guard-ok (str_eq (state_of r) "pending" || rerun) _ _ e3 in
    let (served, e5) = guard-ok (not (str_eq (primary_service r) "")) _ _ e4 in
    let (u, gone, last) = >>=-eq-ok s.gateway _ e5 in
    let same : r ≡ row = cc in
    subst (λ r. Owned rows tenant_id record_id r × (is_terminal (state_of r) ≡ false)) same
      (fetched-Owned rows tenant_id record_id r got, ground (arith, live))

bound_row-evidence :
    (was_pending : Bool) (now : ℕ) (run_id workflow_id : String) (row : Row)
    → (bound_row was_pending now run_id workflow_id row).base.evidence
      ≡ row.base.evidence ++ agent_run now run_id workflow_id ∷ []
bound_row-evidence true now run_id workflow_id row = refl
bound_row-evidence false now run_id workflow_id row = refl

agent_run-id :
    (now : ℕ) (run_id workflow_id : String)
    → is_text (entry_get (agent_run now run_id workflow_id) "run_id") run_id ≡ true
unfolding agent_run fields lookup
agent_run-id now run_id workflow_id = str_eq_refl run_id

bound_row-state :
    (was_pending : Bool) (now : ℕ) (run_id workflow_id : String) (read row : Row)
    → str_eq (state_of read) "pending" ≡ was_pending
    → (was_pending ≡ false) ⊎ (str_eq row.base.state "pending" ≡ true)
    → let new = bound_row was_pending now run_id workflow_id row in
      ((state_of read ≡ "pending")
        × (row.base.state ≡ "pending")
        × (new.base.state ≡ "in_progress"))
      ⊎ (new.base.state ≡ row.base.state)
bound_row-state true now run_id workflow_id read row e (inl differs) = absurd (ground arith)
bound_row-state true now run_id workflow_id read row e (inr waits) = inl (
  (str_eq_iff (state_of read) "pending").0 e,
  (str_eq_iff row.base.state "pending").0 waits,
  refl,
)
bound_row-state false now run_id workflow_id read row e h = inr refl

Bound-Analysis :
    (rows later after : Rows) (now : ℕ) (tenant_id record_id run_id workflow_id : String)
    (row : Row)
    → Owned rows tenant_id record_id row
    → is_terminal (state_of row) ≡ false
    → str_eq run_id "" ≡ false
    → Bound later after now tenant_id record_id run_id workflow_id (str_eq (state_of row) "pending")
    → Analysis rows later after tenant_id record_id run_id
Bound-Analysis rows later after now tenant_id record_id run_id workflow_id row o live named
      (found, mine, pending, same) =
    let was = str_eq (state_of row) "pending" in
    let entry = agent_run now run_id workflow_id in
    record {
      row = row;
      found = found;
      bound = bound_row was now run_id workflow_id found;
      entry = entry;
      read = o;
      kept = mine;
      live = live;
      named = named;
      stored = same;
      noted = bound_row-evidence was now run_id workflow_id found;
      shown =
          ap latest_agent_run (bound_row-evidence was now run_id workflow_id found)
          ∙ latest_agent_run-append found.base.evidence now run_id workflow_id named;
      names = agent_run-id now run_id workflow_id;
      state = bound_row-state was now run_id workflow_id row found refl pending;
    }

run_bound-ok :
    (s : Service) (later after : Rows) (now : ℕ) (tenant_id record_id workflow_id run_id : String)
    (pending : Bool) (started : Result String)
    → run_bound s later now tenant_id record_id workflow_id pending started ≡ (after, ok run_id)
    → (started ≡ ok run_id)
      × Bound later after now tenant_id record_id run_id (strip workflow_id) pending
unfolding run_bound
run_bound-ok s later after now tenant_id record_id workflow_id run_id pending (err failure) e =
    absurd (ground arith)
run_bound-ok s later after now tenant_id record_id workflow_id run_id pending (ok id) e =
    let (bound, same) =
      bind_run-Bound s later after now tenant_id record_id id run_id (strip workflow_id) pending
        e in
    (
      ap ok same,
      subst (λ i. Bound later after now tenant_id record_id i (strip workflow_id) pending) same
          bound,
    )

run_started-Analysis :
    (s : Service) (rows later after : Rows) (now : ℕ)
    (tenant_id record_id workflow_id run_id : String) (outcome : Outcome) (read : Result Row)
    → ((row : Row)
        → read ≡ ok row
        → Owned rows tenant_id record_id row × (is_terminal (state_of row) ≡ false))
    → run_started s rows later now tenant_id record_id workflow_id outcome read ≡ (after, ok run_id)
    → Analysis rows later after tenant_id record_id run_id
unfolding run_started
run_started-Analysis s rows later after now tenant_id record_id workflow_id run_id outcome
      (err failure) live e =
    absurd (ground arith)
run_started-Analysis s rows later after now tenant_id record_id workflow_id run_id outcome (ok row)
      live e =
    let (owned, open_state) = live row refl in
    let (started, bound) =
      run_bound-ok s later after now tenant_id record_id workflow_id run_id
        (str_eq (state_of row) "pending") (started_run s "agent workflow run start" outcome) e in
    Bound-Analysis rows later after now tenant_id record_id run_id (strip workflow_id) row owned
      open_state (started_run-id s "agent workflow run start" outcome run_id started) bound

replied-ok :
    (s : Service) (m : Rows × Result String) (after : Rows) (state run_id : String)
    → replied s m ≡ (after, ok (state, run_id))
    → m ≡ (after, ok run_id)
replied-ok s (rows, err failure) after state run_id e = absurd (ground arith)
replied-ok s (rows, ok id) after state run_id e = ground arith

-- When an analysis is answered: the record is one of the tenant, before and after the call of the
-- workflow service, and was in no terminal state before it; the run of the reply has an id, the store
-- differs from the one after the call in this record alone, the evidence has one more entry at its
-- end, which names that run and which the record then shows as its latest run; and the state of the
-- record is unchanged unless it was pending before and after the call, in which case it is in
-- progress.
pub analyze_problem-Analysis :
    (s : Service) (rows later after : Rows) (now : ℕ)
    (tenant_id record_id workflow_id state run_id : String) (rerun : Bool) (outcome : Outcome)
    → analyze_problem s rows later now tenant_id record_id workflow_id rerun outcome
      ≡ (after, ok (state, run_id))
    → Analysis rows later after tenant_id record_id run_id
unfolding analyze_problem
analyze_problem-Analysis s rows later after now tenant_id record_id workflow_id state run_id rerun
      outcome e =
    let read = analysis_guards s rows tenant_id record_id workflow_id rerun in
    run_started-Analysis s rows later after now tenant_id record_id workflow_id run_id outcome read
      (analysis_guards-live s rows tenant_id record_id workflow_id rerun)
      (replied-ok s (run_started s rows later now tenant_id record_id workflow_id outcome read)
        after state run_id e)
