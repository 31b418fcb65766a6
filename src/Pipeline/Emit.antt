-- ===== src/Pipeline/Emit.antt =====
-- src/aiops_apm/pipeline/emit.py, summary.py, and the context of context.py. The context is split:
-- what a round reads is `RoundContext`, the stores that it changes are `Stores`, and what the
-- standard library computes is `Env`.
pub mod Effects
use aiops_apm_anomaly_detect.Prelude.{
  ℕ, String, Bool, true, false, Option, none, some, List, [], ◌∷◌, ◌++◌, map, some_of, length,
  or_else, is_nonempty, if◌then◌else◌, str_eq,
}
use aiops_apm_anomaly_detect.Errors.{Result, ok, ◌>>=◌}
use aiops_apm_anomaly_detect.Models.Float.{from_int}
use aiops_apm_anomaly_detect.Models.Value.{Value, Params, fields, texts}
use aiops_apm_anomaly_detect.Models.Signal.{ChangeSignal}
use aiops_apm_anomaly_detect.Models.Config.{DomainConfig}
use aiops_apm_anomaly_detect.Models.Anomaly.{Anomaly, MetricAnomaly, LogAnomaly, metrics, logs}
use aiops_apm_anomaly_detect.Models.Record.{Correlation, Verification, ProblemRecord}
use aiops_apm_anomaly_detect.Models.Fingerprint.{Hashing}
use aiops_apm_anomaly_detect.Plugins.{Registry, SuppressContext}
use aiops_apm_anomaly_detect.Pipeline.Correlate.{Printing, template_summary}
use aiops_apm_anomaly_detect.Pipeline.Verify.{FprEntry, VerifyContext}
use aiops_apm_anomaly_detect.Storage.DetectionState.{StateRows}
use aiops_apm_anomaly_detect.Storage.Records.{Rows, write_or_append}
use aiops_apm_anomaly_detect.Storage.Rounds.{RoundRows, RoundRow, get_round}
use aiops_apm_anomaly_detect.Storage.Sequence.{Counters, next_id}

-- `seq_date` is the date of the sequence store's clock during the round.
pub record Env : Type 0 where
  pub hashing : Hashing
  pub printing : Printing
  pub show_padded : ℕ → String
  pub seq_date : String

abbrev pub SummaryProvider : Type 0
SummaryProvider = String → List MetricAnomaly → List LogAnomaly → String

pub record RoundContext : Type 0 where
  pub trace_id : String
  pub tenant_id : String
  pub domain : String
  pub now : ℕ
  pub domain_config : DomainConfig
  pub registry : Registry
  pub suppress : SuppressContext
  pub changes : List ChangeSignal
  pub fpr : List (String × FprEntry)
  pub degraded_sources : List String
  pub summary_provider : Option SummaryProvider
  pub rounds_store : Option RoundRows

pub record Stores : Type 0 where
  pub detection : StateRows
  pub records : Rows
  pub counters : Counters

-- What the verification reads of the context.
abbrev pub verify_context : RoundContext → VerifyContext
verify_context ctx = record {
  tenant_id = ctx.tenant_id;
  domain = ctx.domain;
  now = ctx.now;
  verify = ctx.domain_config.verify;
  fpr = ctx.fpr;
}

abbrev pub targets_of : Option RoundRow → List String
targets_of none = []
targets_of (some row) = row.target_ids

unfoldable pub round_target_ids : RoundContext → Result (List String)
unfolding get_round
round_target_ids ctx = elim ctx.rounds_store [
  | none ↦ ok []
  | some rounds ↦ get_round rounds ctx.tenant_id ctx.trace_id >>= λ row. ok (targets_of row)
]

-- `if tid not in log_trace_ids: log_trace_ids.append(tid)`, over one list.
unfoldable pub add_trace_ids : List String → List String → List String
add_trace_ids [] ids = ids
add_trace_ids (tid ∷ tids) ids =
    add_trace_ids tids (if some_of (λ t. str_eq t tid) ids then ids else ids ++ tid ∷ [])

unfoldable pub log_trace_ids : List LogAnomaly → List String → List String
unfolding add_trace_ids
log_trace_ids [] ids = ids
log_trace_ids (a ∷ r) ids = log_trace_ids r (add_trace_ids a.trace_ids ids)

unfoldable pub degraded_entry : RoundContext → List Value
unfolding fields texts
degraded_entry ctx =
    if is_nonempty ctx.degraded_sources
    then Value.obj (
        fields (
          ("type", Value.str "degraded")
          ∷ ("round_id", Value.str ctx.trace_id)
          ∷ ("target_ids", texts ctx.degraded_sources)
          ∷ []))
      ∷ []
    else []

unfoldable pub trace_entry : RoundContext → List String → Result (List Value)
unfolding round_target_ids fields texts from_int
trace_entry ctx [] = ok []
trace_entry ctx (t ∷ ts) = do
  target_ids ← round_target_ids ctx
  ok (
      Value.obj (
        fields (
          ("type", Value.str "log_trace_ids")
          ∷ ("round_id", Value.str ctx.trace_id)
          ∷ ("target_ids", texts target_ids)
          ∷ ("trace_ids", texts (t ∷ ts))
          ∷ ("count", Value.num (from_int (length (t ∷ ts))))
          ∷ []))
      ∷ [])

-- `TemplateSummaryProvider.summarize`
unfoldable pub template_provider : Printing → SummaryProvider
unfolding template_summary
template_provider p service ms ls = template_summary p ms ls

-- What `l2_correlate` and `l3_verify` found of the group.
pub record Findings : Type 0 where
  pub correlation : Correlation
  pub change_related : Bool
  pub recent_change : Option Params
  pub verification : Verification

module _ (env : Env) where
  unfoldable pub new_record :
      RoundContext
      → (service : String) → List Anomaly
      → Findings
      → (group_key_service : Option String) → (evidence : List Value) → (record_id : String)
      → ProblemRecord
  unfolding metrics logs template_provider
  new_record ctx service anomalies found group_key_service evidence record_id =
      let ms = metrics anomalies in
      let ls = logs anomalies in
      let provider = or_else ctx.summary_provider (template_provider env.printing) in
      record {
        record_id = record_id;
        source = "apm-alert";
        tenant_id = ctx.tenant_id;
        domain = ctx.domain;
        state = "pending";
        service = service;
        instance_id = none;
        severity = found.verification.final_severity;
        detected_at = ctx.now;
        first_seen_at = some ctx.now;
        last_seen_at = some ctx.now;
        occurrence_count = 1;
        resolved_at = none;
        resolve_reason = none;
        symptom = ("summary", Value.str (provider service ms ls)) ∷ [];
        metric_anomalies = ms;
        log_anomalies = ls;
        correlation = found.correlation;
        change_related = found.change_related;
        recent_change = found.recent_change;
        verification = found.verification;
        evidence = evidence;
        trace_id = some ctx.trace_id;
        group_key_service = group_key_service;
      }

  -- The part after the early return.
  unfoldable pub emit_passed :
      RoundContext
      → String
      → List Anomaly
      → Findings
      → Option String
      → Stores
      → Result (List ProblemRecord × Stores)
  unfolding logs log_trace_ids degraded_entry trace_entry new_record next_id write_or_append
  emit_passed ctx service anomalies found group_key_service s = do
    traces ← trace_entry ctx (log_trace_ids (logs anomalies) [])
    let (record_id, counters) = next_id env.show_padded s.counters env.seq_date ctx.domain
    let rec =
        new_record ctx service anomalies found group_key_service (degraded_entry ctx ++ traces)
          record_id
    records ← write_or_append env.hashing s.records ctx.tenant_id rec
    ok (rec ∷ [], record s { records = records; counters = counters })

  unfoldable pub emit :
      RoundContext
      → String
      → List Anomaly
      → Findings
      → Option String
      → Stores
      → Result (List ProblemRecord × Stores)
  unfolding emit_passed
  emit ctx service anomalies found group_key_service s = elim found.verification.passed [
    | false ↦ ok ([], s)
    | true ↦ emit_passed ctx service anomalies found group_key_service s
  ]
