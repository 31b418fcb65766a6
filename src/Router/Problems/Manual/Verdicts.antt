-- ===== src/Router/Problems/Manual/Verdicts.antt =====
-- Lemmas on resolve_problem of src/aiops_apm/router/problems.py and the table of false positives.
use aiops_apm_anomaly_detect.Prelude.{
  ℕ, ◌≡◌, refl, ◌⊎◌, inl, inr, not, String, Bool, true, false, some, Bool-cases, str_eq,
}
use aiops_apm_anomaly_detect.Prelude.Dict as Dict
use aiops_apm_anomaly_detect.Prelude.Dict.{string_key}
use aiops_apm_anomaly_detect.Errors.{ok}
use aiops_apm_anomaly_detect.Storage.Records.{Row, Rows, resolve, set_terminal_state}
use aiops_apm_anomaly_detect.Storage.Records.Writes.{Owned}
use aiops_apm_anomaly_detect.Storage.Dynamic.Fpr.{FprTable, Arithmetic, Verdict, write_fpr-Verdict}
use aiops_apm_anomaly_detect.Router.Problems.Fetched.{Owned-fetched}
use aiops_apm_anomaly_detect.Router.Problems.Manual.{
  Stores, record_fpr, resolved_as, verdict_recorded, resolve_problem,
}

abbrev pub resolved_row : Row → ℕ → Row
resolved_row row now = record row {
  base = record row.base {
    state = "resolved";
    resolved_at = some now;
    resolve_reason = some "manual";
  };
}

resolve-done :
    (rows : Rows) (now : ℕ) (tenant_id record_id : String) (row : Row)
    → Owned rows tenant_id record_id row
    → resolve rows now tenant_id record_id "manual"
      ≡ ok (Dict.put rows record_id (resolved_row row now))
unfolding resolve set_terminal_state
resolve-done rows now tenant_id record_id row o = rw (o.named, o.found, o.mine) refl

-- The table after a verdict on a group key: with the verdict, or the same when there is no key.
abbrev pub Judged : Arithmetic → FprTable → FprTable → String → String → Bool → Type 0
Judged a table after tenant_id group_key false_positive =
    ((str_eq group_key "" ≡ true) × (after ≡ table))
    ⊎ ((str_eq group_key "" ≡ false) × Verdict a table after tenant_id group_key false_positive)

record_fpr-Judged :
    (a : Arithmetic) (table : FprTable) (tenant_id : String) (row : Row) (false_positive : Bool)
    → str_eq tenant_id "" ≡ false
    → (after : FprTable) × (record_fpr a table tenant_id row false_positive
        ≡ ok (after, not (str_eq row.group_key "")))
      × Judged a table after tenant_id row.group_key false_positive
unfolding record_fpr
record_fpr-Judged a table tenant_id row false_positive named =
    elim (Bool-cases (str_eq row.group_key "")) [
      | inl blank ↦ (table, rw blank refl, inl (blank, refl))
      | inr keyed ↦
          let (after, wrote, verdict) =
            write_fpr-Verdict a table tenant_id row.group_key false_positive named in
          (after, rw (keyed, wrote) refl, inr (keyed, verdict))
    ]

-- When a tenant owns a record and a person resolves it, as a false positive or not, then the handler
-- answers, whatever the state of the record was; the record, and no other, is resolved as "manual" at
-- this time. When the record has a group key, its total in the tenant is one more and its rate is the
-- rounded mean with 1 for a false positive and 0 for another verdict, and all other totals and rates
-- are as before; else the table is as before.
pub resolve_problem-Judged :
    (a : Arithmetic) (s : Stores) (now : ℕ) (tenant_id record_id : String) (false_positive : Bool)
    (row : Row)
    → Owned s.rows tenant_id record_id row
    → (after : FprTable) × (resolve_problem a s now tenant_id record_id false_positive ≡ (
      record { rows = Dict.put s.rows record_id (resolved_row row now); table = after },
      ok (not (str_eq row.group_key "")),
    ))
      × Judged a s.table after tenant_id row.group_key false_positive
unfolding resolve_problem resolved_as verdict_recorded
resolve_problem-Judged a s now tenant_id record_id false_positive row o =
    let (after, wrote, judged) = record_fpr-Judged a s.table tenant_id row false_positive o.named in
    (
      after,
      rw
          (
            Owned-fetched s.rows tenant_id record_id row o,
            wrote,
            resolve-done s.rows now tenant_id record_id row o,
          )
          refl,
      judged,
    )
