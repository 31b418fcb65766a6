-- ===== src/Pipeline/Verify.antt =====
-- src/aiops_apm/pipeline/l3_verify.py. The context is read for the tenant, the domain, the clock,
-- the thresholds and the table of false-positive rates; the store and the seen keys are passed on.
pub mod Severity
pub mod Persistence
use aiops_apm_anomaly_detect.Prelude.{
  ℕ, zero, suc, ◌+◌, String, Bool, true, false, not, ◌&&◌, ◌||◌, Option, none, some, List, [], ◌∷◌,
  or_else, some_of, leb, if◌then◌else◌, str_eq,
}
use aiops_apm_anomaly_detect.Prelude.Dict as Dict
use aiops_apm_anomaly_detect.Prelude.Dict.{string_key}
use aiops_apm_anomaly_detect.Prelude.Int.{ℤ, pos, leb_ℤ, ltb_ℤ}
use aiops_apm_anomaly_detect.Errors.{Result, ok, ◌>>=◌}
use aiops_apm_anomaly_detect.Models.Float.{Float, float_lt, finite}
use aiops_apm_anomaly_detect.Models.Config.{VerifySpec}
use aiops_apm_anomaly_detect.Models.Anomaly.{Anomaly, severity_of}
use aiops_apm_anomaly_detect.Models.Record.{Verification}
use aiops_apm_anomaly_detect.Models.Fingerprint.{Hashing, anomaly_key, group_key}
use aiops_apm_anomaly_detect.Storage.DetectionState.{StateRows, PersistenceState, get, upsert}

-- `_SEVERITY_RANK.get(severity, 0)`
abbrev pub severity_rank : String → ℕ
severity_rank s = if str_eq s "high" then 1 else if str_eq s "critical" then 2 else 0

-- `_RANK_TO_NAME[rank]`, for a rank of the table.
abbrev pub rank_name : ℕ → String
rank_name zero = "warning"
rank_name (suc zero) = "high"
rank_name (suc (suc n)) = "critical"

-- `max((...), default=0)`
unfoldable pub top_rank : List Anomaly → ℕ
top_rank [] = 0
top_rank (a ∷ others) =
    let rest = top_rank others in
    if leb rest (severity_rank (severity_of a)) then severity_rank (severity_of a) else rest

abbrev pub is_high_metric : Anomaly → Bool
is_high_metric (Anomaly.metric a) = str_eq a.severity "high"
is_high_metric (Anomaly.log a) = false

abbrev pub is_high_log : Anomaly → Bool
is_high_log (Anomaly.metric a) = false
is_high_log (Anomaly.log a) = str_eq a.severity "high"

unfoldable pub calibrate_severity : List Anomaly → Bool → String
unfolding top_rank
calibrate_severity [] related = "warning"
calibrate_severity (a ∷ others) related =
    if related && (some_of is_high_metric (a ∷ others) && some_of is_high_log (a ∷ others))
    then "critical"
    else rank_name (top_rank (a ∷ others))

-- `{"fpr": ..., "total": ...}`
pub record FprEntry : Type 0 where
  pub fpr : Float
  pub total : ℤ

pub record VerifyContext : Type 0 where
  pub tenant_id : String
  pub domain : String
  pub now : ℕ
  pub verify : VerifySpec
  pub fpr : List (String × FprEntry)

-- `prev` and `first_seen`
abbrev pub rounds_of : Option PersistenceState → ℕ
rounds_of none = 0
rounds_of (some state) = state.consecutive_rounds

abbrev pub first_seen_of : Option PersistenceState → ℕ → ℕ
first_seen_of none now = now
first_seen_of (some state) now = state.first_seen

-- `ctx.seen_keys.add(key)`
unfoldable pub add_key : String → List String → List String
add_key key keys = if some_of (λ k. str_eq k key) keys then keys else key ∷ keys

abbrev pub Persisted : Type 0
Persisted = List Anomaly × StateRows × List String

-- One anomaly's turn in the loop: whether it persists, the new store, the new seen keys.
unfoldable pub count_round :
    Hashing
    → VerifyContext
    → Anomaly
    → StateRows
    → List String
    → Result (Bool × StateRows × List String)
unfolding get upsert anomaly_key add_key
count_round h ctx a rows seen =
    let key = anomaly_key h a in
    do
      state ← get rows ctx.tenant_id ctx.domain key
      let new_consecutive = rounds_of state + 1
      rows' ← upsert rows ctx.tenant_id ctx.domain key (record {
        consecutive_rounds = new_consecutive;
        miss_rounds = 0;
        first_seen = first_seen_of state ctx.now;
        last_seen = ctx.now;
      })
      ok (leb_ℤ ctx.verify.persistence_rounds (pos new_consecutive), rows', add_key key seen)

-- The loop over the group.
unfoldable pub count_rounds :
    Hashing → VerifyContext → List Anomaly → StateRows → List String → Result Persisted
unfolding count_round
count_rounds h ctx [] rows seen = ok ([], rows, seen)
count_rounds h ctx (a ∷ others) rows seen = do
  (persists, rows', seen') ← count_round h ctx a rows seen
  (persisted, rows'', seen'') ← count_rounds h ctx others rows' seen'
  ok (if persists then a ∷ persisted else persisted, rows'', seen'')

-- The part after the loop.
unfoldable pub judged : Hashing → VerifyContext → String → Bool → List Anomaly → Verification
unfolding group_key calibrate_severity Dict.get float_lt
judged h ctx service related [] = record {
  passed = false;
  persistence_ok = false;
  resample_ok = true;
  false_positive_rate = finite (pos 0);
  final_severity = "warning";
}
judged h ctx service related (a ∷ others) =
    let persisted = a ∷ others in
    let gk = group_key h ctx.tenant_id ctx.domain service persisted in
    let entry = or_else (Dict.get ctx.fpr gk) (record { fpr = finite (pos 0); total = pos 0 }) in
    let fpr_ok =
      ltb_ℤ entry.total ctx.verify.min_samples
      || float_lt entry.fpr ctx.verify.false_positive_threshold in
    record {
      passed = true;
      persistence_ok = true;
      resample_ok = true;
      false_positive_rate = entry.fpr;
      final_severity = if fpr_ok then calibrate_severity persisted related else "warning";
    }

unfoldable pub l3_verify :
    Hashing
    → VerifyContext
    → String
    → List Anomaly
    → Bool
    → StateRows
    → List String
    → Result (Verification × StateRows × List String)
unfolding count_rounds judged
l3_verify h ctx service anomalies related rows seen = do
  (persisted, rows', seen') ← count_rounds h ctx anomalies rows seen
  ok (judged h ctx service related persisted, rows', seen')
