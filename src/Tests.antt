-- ===== src/Tests.antt =====
-- Concrete inputs for the theorems, and runs of the code on them.
mod Handlers
mod Settings
mod Rounds
mod Schedules
mod Analyses
mod Manual
use mathlib.Core.Option as Option
use mathlib.Core.List.Perm
use mathlib.Core.List.{Perm}
use aiops_apm_anomaly_detect.Prelude.{
  ℕ, ◌+◌, ◌≤◌, ◌<◌, ◌≡◌, ◌≢◌, refl, ◌↔◌, ◌⊎◌, inl, String, true, false, none, some, List, [], ◌∷◌,
  flatten, In, arith, some_of, or_else, is_nonempty, str_eq_iff,
}
use aiops_apm_anomaly_detect.Prelude.Dict as Dict
use aiops_apm_anomaly_detect.Prelude.Dict.{string_key, text_triple_key}
use aiops_apm_anomaly_detect.Prelude.Text.{first_chars, concat}
use aiops_apm_anomaly_detect.Prelude.Int.{pos, leb_ℤ}
use aiops_apm_anomaly_detect.Errors.{ok}
use aiops_apm_anomaly_detect.Models.Float.{finite}
use aiops_apm_anomaly_detect.Models.Value.{Value}
use aiops_apm_anomaly_detect.Models.Signal.{Signal, MetricSignal}
use aiops_apm_anomaly_detect.Models.Config.{DetectorSpec, SuppressorSpec, DomainConfig, Matcher}
use aiops_apm_anomaly_detect.Models.Anomaly.{Anomaly, MetricAnomaly, LogAnomaly, severity_of}
use aiops_apm_anomaly_detect.Models.Record.{ProblemRecord, Verification, record_group_key}
use aiops_apm_anomaly_detect.Models.Fingerprint.{Hashing, anomaly_key, group_key}
use aiops_apm_anomaly_detect.Models.Fingerprint.Order.{identity, group_key-perm}
use aiops_apm_anomaly_detect.Plugins.{Plugin, Registry, SuppressContext}
use aiops_apm_anomaly_detect.Plugins.Suppressors.{window_check}
use aiops_apm_anomaly_detect.Plugins.Thresholds.{static_threshold}
use aiops_apm_anomaly_detect.Pipeline.Grouping.{Group, enumerate, group_anomalies}
use aiops_apm_anomaly_detect.Pipeline.Grouping.Tests.{sample}
use aiops_apm_anomaly_detect.Pipeline.Grouping.Connected.{Connected}
use aiops_apm_anomaly_detect.Pipeline.Grouping.Partition.{group_anomalies-partition}
use aiops_apm_anomaly_detect.Pipeline.Grouping.Together.{SameGroup, group_anomalies-Connected}
use aiops_apm_anomaly_detect.Pipeline.Grouping.UnionFind.{singletons, union}
use aiops_apm_anomaly_detect.Pipeline.Grouping.UnionFind.Forest.{
  Represents, merge, singletons-Represents, union-Represents,
}
use aiops_apm_anomaly_detect.Pipeline.Suppress.{l0_suppress}
use aiops_apm_anomaly_detect.Pipeline.Suppress.Survivors.{Suppresses, l0_suppress-survivors}
use aiops_apm_anomaly_detect.Pipeline.Detect.{l1_detect}
use aiops_apm_anomaly_detect.Pipeline.Detect.Isolation.{Made, l1_detect-isolation}
use aiops_apm_anomaly_detect.Pipeline.Correlate.{is_near, log_ts, l2_correlate}
use aiops_apm_anomaly_detect.Pipeline.Correlate.Window.{l2_correlate-related}
use aiops_apm_anomaly_detect.Pipeline.Verify.{
  calibrate_severity, severity_rank, is_high_metric, is_high_log, count_rounds, l3_verify,
}
use aiops_apm_anomaly_detect.Pipeline.Verify.Severity.{BothHigh, Highest, calibrate_severity_lem}
use aiops_apm_anomaly_detect.Pipeline.Verify.Persistence.{
  rounds, occurrences, Enough, l3_verify-persistence,
}
use aiops_apm_anomaly_detect.Pipeline.Emit.{
  Env, RoundContext, Stores, Findings, new_record, verify_context,
}
use aiops_apm_anomaly_detect.Pipeline.Emit.Effects.{l3_verify-record_key}
use aiops_apm_anomaly_detect.Pipeline.Runner.{DomainResult, run_domain}
use aiops_apm_anomaly_detect.Pipeline.Runner.Round.{run_domain-persistence}
use aiops_apm_anomaly_detect.Storage.DetectionState.{StateRows, sweep, sweep_rows, rows_of_domain}
use aiops_apm_anomaly_detect.Storage.DetectionState.Laws.{Swept, sweep-Swept, get-rows_of_domain}
use aiops_apm_anomaly_detect.Storage.Records.{Row, Rows, superset_candidate, write_or_append}
use aiops_apm_anomaly_detect.Storage.Records.Unique.{Sound, write_or_append-Sound}
use aiops_apm_anomaly_detect.Storage.Lease.{Leases, try_acquire}
use aiops_apm_anomaly_detect.Storage.Lease.Postgres.{pg_try_acquire, pg_try_acquire-try_acquire}
use aiops_apm_anomaly_detect.Storage.Lease.Exclusion.{Call, Others, call, lease-exclusive}
use aiops_apm_anomaly_detect.Storage.Sequence.{bump}
use aiops_apm_anomaly_detect.Storage.Sequence.Fresh.{Later, bump-increases}
use aiops_apm_anomaly_detect.Reconcile.{record_anomalies, misses, is_stale}
use aiops_apm_anomaly_detect.Reconcile.Stale.{is_stale-misses}

-- Stand-ins for the parameters: a digest that keeps its text, and prints that forget theirs.
abbrev pub hashing : Hashing
hashing = record { hexdigest = λ s. s; show_items = λ l. "[]" }

abbrev pub env : Env
env = record {
  hashing = hashing;
  printing = record { show_float = λ x. "1.0"; show_int = λ n. "1" };
  show_padded = λ n. "0001";
  seq_date = "20260101";
}

group_anomalies-Connected_example :
    SameGroup (group_anomalies-partition sample).0 0 1 ↔ Connected sample 0 1
group_anomalies-Connected_example =
    group_anomalies-Connected sample (group_anomalies-partition sample).0 0 1
      (group_anomalies-partition sample).1 (omega arith) (omega arith)

group_anomalies-partition_example :
    (gs : List Group) × (group_anomalies sample ≡ ok gs) × Perm (flatten gs) (enumerate 0 sample)
group_anomalies-partition_example = group_anomalies-partition sample

union-Represents_example : Represents 3 (union (singletons 3) 0 2) (merge (λ i. i) 0 2)
union-Represents_example =
    union-Represents 0 2 (singletons-Represents 3) (omega arith) (omega arith)

-- One metric above its threshold.
abbrev pub cpu : MetricSignal
cpu = record {
  ref = 1;
  tenant_id = "t";
  service = "a";
  metric = "cpu";
  value = finite (pos 9);
  timestamp = 100;
  labels = [];
}

abbrev pub cpu_high : MetricAnomaly
cpu_high = record {
  tenant_id = "t";
  service = "a";
  metric = "cpu";
  value = finite (pos 9);
  baseline = none;
  method = "static_threshold";
  severity = "high";
  detected_at = 100;
  labels = [];
}

abbrev pub error_log : LogAnomaly
error_log = record {
  tenant_id = "t";
  service = "a";
  level = "ERROR";
  signature = "E: m";
  pattern = "m";
  count = 7;
  first_seen = 90;
  severity = "high";
  detected_at = none;
  trace_ids = [];
}

abbrev pub both : List Anomaly
both = Anomaly.metric cpu_high ∷ Anomaly.log error_log ∷ []

abbrev pub detectors : List DetectorSpec
detectors =
    record {
      signal = Matcher.text "*";
      plugin = "static_threshold";
      params = ("threshold", Value.num (finite (pos 5))) ∷ [];
      severity = "high";
    }
    ∷ []

abbrev pub suppressors : List SuppressorSpec
suppressors = record { name = "maintenance_window"; params = [] } ∷ []

abbrev pub registry : Registry
registry =
    ("detector", ("static_threshold", Plugin.detector "static_threshold" static_threshold) ∷ [])
    ∷ ("suppressor", ("maintenance_window", Plugin.suppressor window_check) ∷ [])
    ∷ []

abbrev pub windows : SuppressContext
windows = record {
  maintenance_windows =
      record { service = "b"; start_at = 0; end_at = 200; reason = some "deploy" } ∷ [];
  blacklist = [];
}

abbrev pub config : DomainConfig
config = record {
  detectors = detectors;
  suppressors = suppressors;
  correlation = record { metric_log_window_sec = pos 60; change_window_sec = pos 60 };
  verify = record {
    persistence_rounds = pos 1;
    false_positive_threshold = finite (pos 1);
    min_samples = pos 5;
  };
}

abbrev pub ctx : RoundContext
ctx = record {
  trace_id = "trace-1";
  tenant_id = "t";
  domain = "d";
  now = 100;
  domain_config = config;
  registry = registry;
  suppress = windows;
  changes = [];
  fpr = [];
  degraded_sources = [];
  summary_provider = none;
  rounds_store = none;
}

abbrev pub stores : Stores
stores = record { detection = []; records = []; counters = [] }

l0_suppress-survivors_example : In (Signal.metric cpu) (Signal.metric cpu ∷ []) ↔ (
    In (Signal.metric cpu) (Signal.metric cpu ∷ [])
    × (¬ Suppresses suppressors registry windows (Signal.metric cpu ∷ []) 1))
unfolding l0_suppress window_check
l0_suppress-survivors_example =
    l0_suppress-survivors suppressors registry windows (Signal.metric cpu ∷ [])
      (Signal.metric cpu ∷ []) [] (Signal.metric cpu) refl

l1_detect-isolation_example : In (Anomaly.metric cpu_high) (Anomaly.metric cpu_high ∷ []) ↔ (
    In (Anomaly.metric cpu_high) []
    ⊎ ((dc : DetectorSpec) × In dc detectors
        × Made registry (Signal.metric cpu ∷ []) dc (Anomaly.metric cpu_high)))
unfolding l1_detect static_threshold
l1_detect-isolation_example =
    l1_detect-isolation detectors registry (Signal.metric cpu ∷ []) []
      (Anomaly.metric cpu_high ∷ []) (Anomaly.metric cpu_high) refl

run_domain-persistence_example :
    (result : DomainResult) × (s' : Stores) × (run_domain env ctx (Signal.metric cpu ∷ []) stores
      ≡ ok (result, s'))
    × (result.anomaly_count ≡ 1)
    × ((key : String)
        → rounds hashing (verify_context ctx) s'.detection key
          ≡ rounds hashing (verify_context ctx) [] key
            + occurrences hashing (verify_context ctx) key (Anomaly.metric cpu_high ∷ []))
unfolding l0_suppress window_check l1_detect static_threshold
run_domain-persistence_example =
    run_domain-persistence env ctx (Signal.metric cpu ∷ []) (Signal.metric cpu ∷ []) []
      (Anomaly.metric cpu_high ∷ []) stores refl refl refl

l2_correlate-related_example : ((l2_correlate config.correlation [] both).0.related ≡ true) ↔ (
    (m : MetricAnomaly) × (l : LogAnomaly) × In (Anomaly.metric m) both
    × In (Anomaly.log l) both
    × (m.service ≡ l.service)
    × (is_near m.detected_at (log_ts l) (pos 60) ≡ true))
l2_correlate-related_example = l2_correlate-related config.correlation [] both

calibrate_severity_lem_example :
    ((true ≡ true) × BothHigh both × (calibrate_severity both true ≡ "critical"))
    ⊎ ((¬ ((true ≡ true) × BothHigh both)) × Highest both (calibrate_severity both true))
calibrate_severity_lem_example = calibrate_severity_lem both true

l3_verify-persistence_example :
    (v : Verification) × (rows' : StateRows) × (seen' : List String) × (l3_verify hashing
        (verify_context ctx)
        "a"
        both
        true
        []
        []
      ≡ ok (v, rows', seen'))
    × ((key : String)
        → rounds hashing (verify_context ctx) rows' key
          ≡ rounds hashing (verify_context ctx) [] key
            + occurrences hashing (verify_context ctx) key both)
    × ((v.passed ≡ true) ↔ (
        (a : Anomaly) × In a both
        × Enough hashing
            (verify_context ctx)
            (rounds hashing (verify_context ctx) rows' (anomaly_key hashing a))))
    × ((a : Anomaly) → In a both → In (anomaly_key hashing a) seen')
l3_verify-persistence_example =
    l3_verify-persistence hashing (verify_context ctx) "a" both true [] [] refl

abbrev pub found : Findings
found = record {
  correlation = record { related = true; reason = "metric_log_within_window" };
  change_related = false;
  recent_change = none;
  verification = record {
    passed = true;
    persistence_ok = true;
    resample_ok = true;
    false_positive_rate = finite (pos 0);
    final_severity = "critical";
  };
}

abbrev pub problem : String → ProblemRecord
unfolding new_record
problem record_id = new_record env ctx "a" both found (some "a") [] record_id

abbrev pub row : Row
unfolding record_group_key
row = record { base = problem "PR-1"; group_key = record_group_key hashing (problem "PR-1") }

-- The store after the group's first round.
abbrev counted : StateRows
counted =
    (
      ("t", "d", "metric|t|a|cpu|["),
      record { consecutive_rounds = 1; miss_rounds = 0; first_seen = 100; last_seen = 100 },
    )
    ∷ (
      ("t", "d", "log|t|a|E: m"),
      record { consecutive_rounds = 1; miss_rounds = 0; first_seen = 100; last_seen = 100 },
    )
    ∷ []

l3_verify-record_key_example :
    (v : Verification) × (l3_verify hashing (verify_context ctx) "a" both true [] []
      ≡ ok (v, counted, "log|t|a|E: m" ∷ "metric|t|a|cpu|[" ∷ []))
    × (v.passed ≡ true
        → v.false_positive_rate
          ≡ (or_else
              (Dict.get ctx.fpr
                (record_group_key hashing (new_record env ctx "a" both found (some "a") [] "PR-1")))
              (record { fpr = finite (pos 0); total = pos 0 })).fpr)
unfolding count_rounds Dict.get Dict.put first_chars concat
l3_verify-record_key_example =
    l3_verify-record_key env ctx "a" "a" both found [] "PR-1" true [] counted []
      ("log|t|a|E: m" ∷ "metric|t|a|cpu|[" ∷ []) refl refl

group_key-perm_example :
    group_key hashing "t" "d" "a" both
    ≡ group_key hashing "t" "d" "a" (Anomaly.log error_log ∷ Anomaly.metric cpu_high ∷ [])
group_key-perm_example =
    group_key-perm hashing "t" "d" "a" both (Anomaly.log error_log ∷ Anomaly.metric cpu_high ∷ [])
      (Perm.swap (identity (Anomaly.log error_log)) (identity (Anomaly.metric cpu_high)) [])

no_rows : Sound []
unfolding Dict.get
no_rows = record { distinct_ids = tt; one_open = λ i j r s f g. absurd (ground arith) }

write_or_append-Sound_example :
    (rows' : Rows) × (write_or_append hashing [] "t" (problem "PR-1") ≡ ok rows') × Sound rows'
unfolding superset_candidate problem first_chars concat
write_or_append-Sound_example =
    write_or_append-Sound hashing [] "t" (problem "PR-1") refl refl no_rows (inl refl)

abbrev leases : Leases
leases = ("apm", record { held_by = "one"; expires_at = 50 }) ∷ []

lease-exclusive_example :
    (Dict.get (call leases (Call.acquire 20 "apm" "two" 30)).1 "apm"
      ≡ some (record { held_by = "one"; expires_at = 50 }))
    × ((now ttl : ℕ) (other : String)
        → other ≢ "one"
        → now < 50
        → try_acquire (call leases (Call.acquire 20 "apm" "two" 30)).1 now "apm" other ttl
          ≡ (false, (call leases (Call.acquire 20 "apm" "two" 30)).1))
unfolding Dict.get
lease-exclusive_example =
    lease-exclusive leases (call leases (Call.acquire 20 "apm" "two" 30)).1 "apm" "one" 50 refl (
      Others.step (Call.acquire 20 "apm" "two" 30) Others.here
        (λ e. absurd (ground (arith, str_eq_iff "two" "one"))) (omega arith))

is_stale-misses_example : (is_stale hashing (pos 3) (rows_of_domain counted "t" "d") row ≡ true) ↔ (
    (is_nonempty (record_anomalies row) ≡ true)
    × ((a : Anomaly)
        → In a (record_anomalies row)
        → leb_ℤ (pos 3) (pos (misses (Dict.get counted ("t", "d", anomaly_key hashing a)))) ≡ true))
unfolding row problem
is_stale-misses_example = is_stale-misses hashing (pos 3) counted "t" row

bump-increases_example :
    (bump [] "PR" "20260101").0
    < (bump (bump (bump [] "PR" "20260101").1 "INC" "20260101").1 "PR" "20260101").0
bump-increases_example =
    bump-increases [] (bump (bump [] "PR" "20260101").1 "INC" "20260101").1 "PR" "20260101"
      (Later.call "INC" "20260101" Later.here)

-- The store after a round that saw neither key.
abbrev missed : StateRows
missed =
    (
      ("t", "d", "metric|t|a|cpu|["),
      record { consecutive_rounds = 1; miss_rounds = 1; first_seen = 100; last_seen = 100 },
    )
    ∷ (
      ("t", "d", "log|t|a|E: m"),
      record { consecutive_rounds = 1; miss_rounds = 1; first_seen = 100; last_seen = 100 },
    )
    ∷ []

sweep-Swept_example :
    Swept "t" "d" []
      ("t", "d", "log|t|a|E: m")
      (Dict.get counted ("t", "d", "log|t|a|E: m"))
      (Dict.get missed ("t", "d", "log|t|a|E: m"))
unfolding sweep sweep_rows
sweep-Swept_example = sweep-Swept counted missed "t" "d" [] ("t", "d", "log|t|a|E: m") refl

get-rows_of_domain_example :
    Dict.get (rows_of_domain counted "t" "d") "log|t|a|E: m"
    ≡ Dict.get counted ("t", "d", "log|t|a|E: m")
get-rows_of_domain_example = get-rows_of_domain counted "t" "d" "log|t|a|E: m"

pg_try_acquire-try_acquire_example :
    pg_try_acquire leases 60 "apm" "two" 30 ≡ try_acquire leases 60 "apm" "two" 30
unfolding Dict.get
pg_try_acquire-try_acquire_example =
    pg_try_acquire-try_acquire leases 60 "apm" "two" 30
      (record { held_by = "one"; expires_at = 50 }) refl
      (λ e. absurd (ground (arith, str_eq_iff "one" "two"))) (λ e. absurd (omega arith))
