-- ===== src/Reconcile.antt =====
-- src/aiops_apm/reconcile.py: the closing of open records whose anomalies have been away.
pub mod Stale
use aiops_apm_anomaly_detect.Prelude.{
  ℕ, suc, ◌+◌, String, Bool, true, false, ◌&&◌, Option, none, some, List, [], ◌∷◌, map, keep,
  all_of, is_nonempty, if◌then◌else◌,
}
use aiops_apm_anomaly_detect.Prelude.Dict as Dict
use aiops_apm_anomaly_detect.Prelude.Dict.{string_key}
use aiops_apm_anomaly_detect.Prelude.Int.{ℤ, pos, leb_ℤ}
use aiops_apm_anomaly_detect.Errors.{Result, ok, ◌>>=◌}
use aiops_apm_anomaly_detect.Models.Anomaly.{Anomaly}
use aiops_apm_anomaly_detect.Models.Record.{anomalies_of}
use aiops_apm_anomaly_detect.Models.Fingerprint.{Hashing, anomaly_key}
use aiops_apm_anomaly_detect.Storage.DetectionState.{StateRows, PersistenceState, list_by_domain}
use aiops_apm_anomaly_detect.Storage.Records.{Row, Rows, is_open, list_rows, list_tenants, resolve}

abbrev pub record_anomalies : Row → List Anomaly
record_anomalies row = anomalies_of row.base.metric_anomalies row.base.log_anomalies

-- `by_domain.get(k, {}).get("miss_rounds", 0)`
abbrev pub misses : Option PersistenceState → ℕ
misses none = 0
misses (some state) = state.miss_rounds

module _ (h : Hashing) (resolve_after_rounds : ℤ) where
  unfoldable pub record_anomaly_keys : Row → List String
  unfolding anomaly_key
  record_anomaly_keys row = map (anomaly_key h) (record_anomalies row)

  -- Whether the record is closed, given the states of its domain.
  unfoldable pub is_stale : List (String × PersistenceState) → Row → Bool
  unfolding record_anomaly_keys Dict.get
  is_stale by_domain row =
      is_nonempty (record_anomaly_keys row)
      && all_of (λ k. leb_ℤ resolve_after_rounds (pos (misses (Dict.get by_domain k))))
          (record_anomaly_keys row)

  -- The loop over the open records of a tenant.
  unfoldable pub reconcile_records :
      List Row → ℕ → StateRows → String → Rows × ℕ → Result (Rows × ℕ)
  unfolding is_stale list_by_domain resolve
  reconcile_records [] now states tenant (rows, resolved) = ok (rows, resolved)
  reconcile_records (row ∷ open_recs) now states tenant (rows, resolved) = do
    by_domain ← list_by_domain states tenant row.base.domain
    next ←
        if is_stale by_domain row
        then (do
          rows' ← resolve rows now tenant row.base.record_id "auto"
          ok (rows', resolved + 1))
        else ok (rows, resolved)
    reconcile_records open_recs now states tenant next

  unfoldable pub reconcile_tenants : List String → ℕ → StateRows → Rows × ℕ → Result (Rows × ℕ)
  unfolding reconcile_records list_rows
  reconcile_tenants [] now states (rows, resolved) = ok (rows, resolved)
  reconcile_tenants (tenant ∷ tenants) now states (rows, resolved) = do
    recs ← list_rows rows tenant none none none 10000
    next ← reconcile_records (keep is_open recs) now states tenant (rows, resolved)
    reconcile_tenants tenants now states next

module _ (h : Hashing) (resolve_after_rounds : ℤ) where
  unfoldable pub reconcile_once : ℕ → StateRows → Rows → Result (Rows × ℕ)
  unfolding reconcile_tenants list_tenants
  reconcile_once now states rows =
      reconcile_tenants h resolve_after_rounds (list_tenants rows) now states (rows, 0)
