-- ===== src/Router/Problems/Manual/Hidden.antt =====
-- Lemmas on handlers of src/aiops_apm/router/problems.py and records of another tenant.
use aiops_apm_anomaly_detect.Prelude.{
  ℕ, ◌≡◌, refl, inl, inr, String, Bool, false, some, [], ◌∷◌, Option-cases, str_eq,
}
use aiops_apm_anomaly_detect.Prelude.Dict as Dict
use aiops_apm_anomaly_detect.Prelude.Dict.{string_key}
use aiops_apm_anomaly_detect.Prelude.Text.{concat}
use aiops_apm_anomaly_detect.Prelude.Strip.{strip}
use aiops_apm_anomaly_detect.Errors.{Error, err}
use aiops_apm_anomaly_detect.Storage.Records as Records
use aiops_apm_anomaly_detect.Storage.Records.{Row, Rows}
use aiops_apm_anomaly_detect.Storage.Dynamic.Fpr.{Arithmetic}
use aiops_apm_anomaly_detect.Storage.Sequence.{Counters}
use aiops_apm_anomaly_detect.Router.Outbound.{Outcome, not_found}
use aiops_apm_anomaly_detect.Router.Problems.{fetched}
use aiops_apm_anomaly_detect.Router.Problems.Manual.{Stores, resolve_problem, ignore_problem}
use aiops_apm_anomaly_detect.Router.Problems.Runs.{
  Service, RunDecisionBody, analysis_guards, analyze_problem, record_run_decision,
}
use aiops_apm_anomaly_detect.Router.Problems.Escalate.{Call, escalation_guards, escalate_problem}

abbrev pub missing : String → Error
missing record_id = not_found (concat ("problem record not found: " ∷ record_id ∷ []))

fetched-hidden :
    (rows : Rows) (tenant_id record_id : String)
    → str_eq tenant_id "" ≡ false
    → ((row : Row)
        → Dict.get rows record_id ≡ some row
        → str_eq row.base.tenant_id tenant_id ≡ false)
    → fetched rows tenant_id record_id ≡ err (missing record_id)
unfolding fetched Records.get concat
fetched-hidden rows tenant_id record_id named other =
    elim (Option-cases (Dict.get rows record_id)) [
      | inl none_there ↦ rw (named, none_there) refl
      | inr (row, there) ↦ rw (named, there, other row there) refl
    ]

-- When the store has no record of the id, or one of another tenant, then these five handlers answer
-- a named tenant that there is no such record, and leave their stores as they are: to resolve the
-- record, to ignore it, to decide on a run, to start an analysis with a named workflow, and to
-- escalate the record, which takes no number from the sequence.
pub handlers-hidden :
    (a : Arithmetic) (s : Service) (stores : Stores) (later : Rows) (counters : Counters) (now : ℕ)
    (tenant_id record_id workflow_id : String) (flag : Bool) (body : RunDecisionBody)
    (outcome : Outcome) (call : Call)
    → str_eq tenant_id "" ≡ false
    → str_eq (strip workflow_id) "" ≡ false
    → ((row : Row)
        → Dict.get stores.rows record_id ≡ some row
        → str_eq row.base.tenant_id tenant_id ≡ false)
    → (resolve_problem a stores now tenant_id record_id flag ≡ (stores, err (missing record_id)))
      × (ignore_problem stores.rows now tenant_id record_id
          ≡ (stores.rows, err (missing record_id)))
      × (record_run_decision stores.rows now tenant_id record_id body
          ≡ (stores.rows, err (missing record_id)))
      × (analyze_problem s stores.rows later now tenant_id record_id workflow_id flag outcome
          ≡ (stores.rows, err (missing record_id)))
      × (escalate_problem s stores.rows counters tenant_id record_id call
          ≡ (counters, stores.rows, err (missing record_id)))
unfolding resolve_problem ignore_problem record_run_decision analyze_problem analysis_guards
    escalate_problem escalation_guards
handlers-hidden a s stores later counters now tenant_id record_id workflow_id flag body outcome call
      named flow other =
    let absent = fetched-hidden stores.rows tenant_id record_id named other in
    (rw absent refl, rw absent refl, rw absent refl, rw (flow, absent) refl, rw absent refl)
