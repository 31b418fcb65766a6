-- ===== src/Poller.antt =====
-- src/aiops_apm/poller.py, run_round: a round over the targets of one domain. What the collectors
-- do is an argument, and so is the order in which they end. What a funnel that raised had
-- written before is not modelled.
pub mod Rows
pub mod Closing
use aiops_apm_anomaly_detect.Prelude.{
  ℕ, String, Bool, true, false, not, Option, none, some, List, [], ◌∷◌, ◌++◌, map, length, some_of,
  or_else, is_nonempty, if◌then◌else◌, str_eq,
}
use aiops_apm_anomaly_detect.Prelude.Dict as Dict
use aiops_apm_anomaly_detect.Prelude.Dict.{string_key}
use aiops_apm_anomaly_detect.Errors.{Error, Result, ok, err, ◌>>=◌, ◌>>◌}
use aiops_apm_anomaly_detect.Models.Value.{Params}
use aiops_apm_anomaly_detect.Models.Signal.{Signal}
use aiops_apm_anomaly_detect.Models.Config.{DomainConfig}
use aiops_apm_anomaly_detect.Plugins.{Registry}
use aiops_apm_anomaly_detect.Pipeline.Emit.{Env, Stores, SummaryProvider}
use aiops_apm_anomaly_detect.Pipeline.Runner.{Counts, DomainResult, run_domain}
use aiops_apm_anomaly_detect.Pipeline.Context.{ConfigStores, ContextArgs, build_context}
use aiops_apm_anomaly_detect.Storage.Rounds.{
  RoundRows, RoundUpdate, TargetRows, TargetUpdate, create_round, create_target, update_status,
  update_target_status,
}
use aiops_apm_anomaly_detect.Storage.Targets.{Target}

-- What `_one` returns for a target: its signals or its error, and the parameters of its request.
pub record Collected : Type 0 where
  pub target_id : String
  pub batch : List Signal
  pub error : Option String
  pub request_params : Option Params

pub record Tables : Type 0 where
  pub rounds : RoundRows
  pub targets : TargetRows

-- The instants that a round reads from the clock after `now`.
pub record Clock : Type 0 where
  pub collect_ended : ℕ
  pub ended_at : ℕ

abbrev pub no_update : TargetUpdate
no_update = record {
  status = none;
  finished_at = none;
  signals_count = none;
  anomaly_count = none;
  record_count = none;
  suppressed_count = none;
  error = none;
  request_params = none;
}

abbrev pub no_round_update : RoundUpdate
no_round_update = record {
  timeline = none;
  signals_count = none;
  anomaly_count = none;
  record_count = none;
  suppressed_count = none;
  degraded_sources = none;
}

unfoldable pub create_targets : TargetRows → String → String → ℕ → List Target → Result TargetRows
unfolding create_target
create_targets rows tenant_id trace_id now [] = ok rows
create_targets rows tenant_id trace_id now (t ∷ ts) = do
  written ← create_target rows tenant_id trace_id t.target_id now
  create_targets written tenant_id trace_id now ts

-- The update after the collection of one target.
abbrev pub collected_update : ℕ → Collected → Option String → TargetUpdate
collected_update ended c none = record no_update {
  status = some "ok";
  finished_at = some ended;
  signals_count = some (length c.batch);
  request_params = c.request_params;
}
collected_update ended c (some failure) = record no_update {
  status = some "failed";
  finished_at = some ended;
  signals_count = some 0;
  error = some failure;
  request_params = c.request_params;
}

unfoldable pub settle_targets :
    TargetRows → String → String → ℕ → List Collected → Result TargetRows
unfolding update_target_status
settle_targets rows tenant_id trace_id ended [] = ok rows
settle_targets rows tenant_id trace_id ended (c ∷ cs) = do
  written ←
      update_target_status rows tenant_id trace_id c.target_id (collected_update ended c c.error)
  settle_targets written tenant_id trace_id ended cs

abbrev pub is_failure : String → Collected → Bool
is_failure target_id c =
    if str_eq c.target_id target_id then (elim c.error [ none ↦ false | some e ↦ true ]) else false

abbrev count_at : Counts → String → Option ℕ
unfolding Dict.get
count_at counts service = some (or_else (Dict.get counts service) 0)

abbrev pub attributed : DomainResult → Target → TargetUpdate
unfolding Dict.get
attributed result t = record no_update {
  anomaly_count = count_at result.anomalies_by_service t.service;
  record_count = count_at result.records_by_service t.service;
  suppressed_count = count_at result.suppressed_by_service t.service;
}

abbrev pub written_if :
    Bool → TargetRows → String → String → String → TargetUpdate → Result TargetRows
unfolding update_target_status
written_if true rows tenant_id trace_id target_id u = ok rows
written_if false rows tenant_id trace_id target_id u =
    update_target_status rows tenant_id trace_id target_id u

-- The counts of the funnel go to the targets that did not fail.
unfoldable pub attribute_targets :
    TargetRows → String → String → DomainResult → List Collected → List Target → Result TargetRows
unfolding update_target_status Dict.get
attribute_targets rows tenant_id trace_id result cs [] = ok rows
attribute_targets rows tenant_id trace_id result cs (t ∷ ts) = do
  written ←
      written_if (some_of (is_failure t.target_id) cs) rows tenant_id trace_id t.target_id
        (attributed result t)
  attribute_targets written tenant_id trace_id result cs ts

abbrev pub signals_of : List Collected → List Signal
signals_of [] = []
signals_of (c ∷ cs) = c.batch ++ signals_of cs

-- `degraded`: the targets that failed, in the order in which their collections ended.
unfoldable pub degraded_of : List Collected → List String
degraded_of [] = []
degraded_of (c ∷ cs) =
    let rest = degraded_of cs in elim c.error [ none ↦ rest | some failure ↦ c.target_id ∷ rest ]

abbrev pub outcome_of : List String → String
outcome_of degraded = if is_nonempty degraded then "partial" else "success"

-- What a round is run for.
pub record RoundArgs : Type 0 where
  pub tenant_id : String
  pub domain : String
  pub trace_id : String
  pub now : ℕ
  pub targets : List Target
  pub clock : Clock

-- Up to the end of the collection.
unfoldable pub collect_phase : RoundArgs → List Collected → Tables → Result Tables
unfolding create_round create_targets settle_targets
collect_phase a cs s = do
  rounds ←
      create_round s.rounds a.tenant_id a.trace_id a.domain a.now "running"
        (map (λ t. t.target_id) a.targets) []
  opened ← create_targets s.targets a.tenant_id a.trace_id a.now a.targets
  settled ← settle_targets opened a.tenant_id a.trace_id a.clock.collect_ended cs
  ok (record { rounds = rounds; targets = settled })

abbrev pub success_update : List Collected → List String → DomainResult → RoundUpdate
success_update cs degraded result = record {
  timeline = some result.timeline;
  signals_count = some (length (signals_of cs));
  anomaly_count = some result.anomaly_count;
  record_count = some (length result.records);
  suppressed_count = some result.suppressed_count;
  degraded_sources = some degraded;
}

-- After the funnel: a round that raised is closed as failed.
unfoldable pub close_phase :
    RoundArgs
    → List Collected
    → List String
    → Tables
    → Result (DomainResult × Stores)
    → Result Tables
unfolding attribute_targets update_status
close_phase a cs degraded s (err failure) = do
  rounds ←
      update_status s.rounds a.tenant_id a.trace_id "failed" a.clock.ended_at
        (record no_round_update { degraded_sources = some degraded })
  ok (record s { rounds = rounds })
close_phase a cs degraded s (ok (result, stores)) = do
  targets ← attribute_targets s.targets a.tenant_id a.trace_id result cs a.targets
  rounds ←
      update_status s.rounds a.tenant_id a.trace_id (outcome_of degraded) a.clock.ended_at
        (success_update cs degraded result)
  ok (record { rounds = rounds; targets = targets })

-- The tables after a round, and its result or what it raised; `funnel` is given the tables that
-- the collection left.
unfoldable pub run_round_with :
    (Tables → Result (DomainResult × Stores))
    → RoundArgs
    → List Collected
    → List String
    → Tables
    → Tables × Result (DomainResult × Stores)
unfolding collect_phase close_phase
run_round_with funnel a cs degraded s = elim (collect_phase a cs s) [
  | err failure ↦ (s, err failure)
  | ok collected ↦ elim (close_phase a cs degraded collected (funnel collected)) [
    | err failure ↦ (collected, err failure)
    | ok closed ↦ (closed, funnel collected)
  ]
]

-- What the funnel reads besides the signals, with the parameters of the parts that it runs.
pub record FunnelArgs : Type 0 where
  pub env : Env
  pub validate : Params → Result DomainConfig
  pub config : ConfigStores
  pub registry : Registry
  pub summary_provider : Option SummaryProvider
  pub stores : Stores

abbrev pub context_args : FunnelArgs → RoundArgs → List String → Tables → ContextArgs
context_args f a degraded s = record {
  tenant_id = a.tenant_id;
  domain = a.domain;
  registry = f.registry;
  now = a.now;
  trace_id = a.trace_id;
  degraded_sources = degraded;
  summary_provider = f.summary_provider;
  rounds = s.rounds;
}

unfoldable pub funnel :
    FunnelArgs → RoundArgs → List Collected → List String → Tables → Result (DomainResult × Stores)
unfolding build_context run_domain
funnel f a cs degraded s = do
  ctx ← build_context f.validate f.config (context_args f a degraded s)
  run_domain f.env ctx (signals_of cs) f.stores

-- `cs` are the results in the order of the targets, `completed` the same as they ended.
unfoldable pub run_round :
    FunnelArgs
    → RoundArgs
    → List Collected
    → List Collected
    → Tables
    → Tables × Result (DomainResult × Stores)
unfolding run_round_with funnel degraded_of
run_round f a cs completed s =
    let degraded = degraded_of completed in run_round_with (funnel f a cs degraded) a cs degraded s
