-- ===== src/Pipeline/Runner.antt =====
-- src/aiops_apm/pipeline/runner.py: one round of the funnel.
pub mod Round
use aiops_apm_anomaly_detect.Prelude.{
  ℕ, ◌+◌, String, Bool, true, false, Option, none, some, List, [], ◌∷◌, ◌++◌, map, length, or_else,
  if◌then◌else◌, str_eq,
}
use aiops_apm_anomaly_detect.Prelude.Dict as Dict
use aiops_apm_anomaly_detect.Prelude.Dict.{string_key}
use aiops_apm_anomaly_detect.Prelude.Text.{concat, join, first_chars}
use aiops_apm_anomaly_detect.Errors.{Result, ok, ◌>>=◌}
use aiops_apm_anomaly_detect.Models.Float.{from_int}
use aiops_apm_anomaly_detect.Models.Value.{Value, Params, items, fields, texts}
use aiops_apm_anomaly_detect.Models.Signal as Signal
use aiops_apm_anomaly_detect.Models.Signal.{Signal}
use aiops_apm_anomaly_detect.Models.Anomaly.{Anomaly, service_of}
use aiops_apm_anomaly_detect.Models.Record.{ProblemRecord, text_or}
use aiops_apm_anomaly_detect.Pipeline.Grouping.{
  Group, group_anomalies, group_services, representative_service,
}
use aiops_apm_anomaly_detect.Pipeline.Suppress.{Suppressed, l0_suppress}
use aiops_apm_anomaly_detect.Pipeline.Detect.{l1_detect}
use aiops_apm_anomaly_detect.Pipeline.Correlate.{l2_correlate}
use aiops_apm_anomaly_detect.Pipeline.Verify.{l3_verify}
use aiops_apm_anomaly_detect.Pipeline.Emit.{Env, RoundContext, Stores, emit, verify_context}
use aiops_apm_anomaly_detect.Storage.DetectionState.{sweep}

-- `_signal_summary`
unfoldable pub signal_summary : Signal → String
unfolding concat first_chars
signal_summary (Signal.metric s) =
    first_chars 200 (concat ("metric:" ∷ s.service ∷ ":" ∷ s.metric ∷ []))
signal_summary (Signal.log s) =
    first_chars 200 (concat ("log:" ∷ s.service ∷ ":" ∷ text_or s.signature s.level ∷ []))

abbrev pub Counts : Type 0
Counts = List (String × ℕ)

-- `d[key] += n` on a `defaultdict(int)`.
abbrev pub count_up : Counts → String → ℕ → Counts
unfolding Dict.get Dict.put
count_up d key n = Dict.put d key (or_else (Dict.get d key) 0 + n)

unfoldable pub count_services : List String → ℕ → Counts → Counts
unfolding count_up
count_services [] n d = d
count_services (s ∷ r) n d = count_services r n (count_up d s n)

pub record DomainResult : Type 0 where
  pub domain : String
  pub records : List ProblemRecord
  pub suppressed_count : ℕ
  pub anomaly_count : ℕ
  pub degraded_sources : List String
  pub timeline : List Params
  pub anomalies_by_service : Counts
  pub records_by_service : Counts
  pub suppressed_by_service : Counts

-- What the loop over the groups carries.
pub record Progress : Type 0 where
  pub records : List ProblemRecord
  pub by_service : Counts
  pub stores : Stores
  pub seen_keys : List String

module _ (env : Env) where
  -- One group.
  unfoldable pub run_group : RoundContext → List Anomaly → Progress → Result Progress
  unfolding group_services representative_service l2_correlate l3_verify emit count_services join
  run_group ctx group p = do
    let services = group_services group
    let rep = representative_service group
    let (corr, change_related, recent_change) =
        l2_correlate ctx.domain_config.correlation ctx.changes group
    (verification, detection, seen) ←
        l3_verify env.hashing (verify_context ctx) rep group corr.related p.stores.detection
          p.seen_keys
    (emitted, stores) ←
        emit env ctx (join "," services) group
          (record {
            correlation = corr;
            change_related = change_related;
            recent_change = recent_change;
            verification = verification;
          })
          (some rep) (record p.stores { detection = detection })
    ok (record {
      records = p.records ++ emitted;
      by_service = count_services services (length emitted) p.by_service;
      stores = stores;
      seen_keys = seen;
    })

  unfoldable pub run_groups : RoundContext → List Group → Progress → Result Progress
  unfolding run_group
  run_groups ctx [] p = ok p
  run_groups ctx (g ∷ gs) p = do p' ← run_group ctx (map (λ m. m.1) g) p; run_groups ctx gs p'

abbrev count : ℕ → Value
unfolding from_int
count n = Value.num (from_int n)

abbrev suppressed_detail : Suppressed → Value
unfolding signal_summary fields first_chars
suppressed_detail i = Value.obj (
    fields (
      ("signal", Value.str (signal_summary i.signal))
      ∷ ("service", Value.str (Signal.service_of i.signal))
      ∷ ("suppressor", Value.str i.suppressor)
      ∷ ("reason", Value.str (first_chars 200 i.reason))
      ∷ []))

-- The timeline of a round, from its counts.
unfoldable pub timeline_of : ℕ → ℕ → List Suppressed → List Anomaly → ℕ → List Params
unfolding count suppressed_detail items texts group_services
timeline_of now collected suppressed anomalies created =
    (("step", Value.str "collect_done") ∷ ("ts", Value.time now) ∷ ("count", count collected) ∷ [])
    ∷ (("step", Value.str "suppressed")
        ∷ ("ts", Value.time now)
        ∷ ("count", count (length suppressed))
        ∷ ("details", Value.arr (items (map suppressed_detail suppressed)))
        ∷ [])
    ∷ (("step", Value.str "detected") ∷ ("count", count (length anomalies)) ∷ [])
    ∷ (("step", Value.str "correlated") ∷ ("services", texts (group_services anomalies)) ∷ [])
    ∷ (("step", Value.str "record_created") ∷ ("count", count created) ∷ [])
    ∷ []

unfoldable pub run_domain :
    Env → RoundContext → List Signal → Stores → Result (DomainResult × Stores)
unfolding l0_suppress l1_detect group_anomalies run_groups count_services timeline_of sweep
run_domain env ctx signals s = do
  (suppressed, kept) ← l0_suppress ctx.domain_config.suppressors ctx.registry ctx.suppress signals
  anomalies ← l1_detect ctx.domain_config.detectors ctx.registry kept []
  groups ← group_anomalies anomalies
  p ←
      run_groups env ctx groups
        (record { records = []; by_service = []; stores = s; seen_keys = [] })
  swept ← sweep p.stores.detection ctx.tenant_id ctx.domain p.seen_keys
  ok (
    record {
      domain = ctx.domain;
      records = p.records;
      suppressed_count = length suppressed;
      anomaly_count = length anomalies;
      degraded_sources = ctx.degraded_sources;
      timeline = timeline_of ctx.now (length signals) suppressed anomalies (length p.records);
      anomalies_by_service = count_services (map service_of anomalies) 1 [];
      records_by_service = p.by_service;
      suppressed_by_service =
          count_services (map (λ i. Signal.service_of i.signal) suppressed) 1 [];
    },
    record p.stores { detection = swept },
  )
