-- ===== src/Pipeline/Correlate.antt =====
-- src/aiops_apm/pipeline/l2_correlate.py. A window in seconds is compared in microseconds; a window
-- below zero contains nothing. Python's printing of a number is a parameter.
pub mod Window
use Prim.Native.Char.{Char, code}
use Prim.Native.String as Text
use aiops_apm_anomaly_detect.Prelude.{
  ℕ, ◌*◌, String, Bool, true, false, not, ◌&&◌, ◌||◌, Option, none, some, List, [], ◌∷◌, ◌++◌, map,
  some_of, is_nonempty, leb, ◌==◌, if◌then◌else◌, str_eq,
}
use aiops_apm_anomaly_detect.Prelude.Int.{ℤ, pos, negsuc, dist}
use aiops_apm_anomaly_detect.Prelude.Text.{concat, join}
use aiops_apm_anomaly_detect.Models.Float.{Float}
use aiops_apm_anomaly_detect.Models.Value.{Value, Params}
use aiops_apm_anomaly_detect.Models.Signal.{ChangeSignal}
use aiops_apm_anomaly_detect.Models.Config.{CorrelationSpec}
use aiops_apm_anomaly_detect.Models.Anomaly.{
  Anomaly, MetricAnomaly, LogAnomaly, metrics, logs, service_of,
}
use aiops_apm_anomaly_detect.Models.Record.{Correlation}

-- `_anom_ts`, for each kind.
abbrev pub log_ts : LogAnomaly → ℕ
log_ts a = elim a.detected_at [ none ↦ a.first_seen | some t ↦ t ]

abbrev pub anom_ts : Anomaly → ℕ
anom_ts (Anomaly.metric a) = a.detected_at
anom_ts (Anomaly.log a) = log_ts a

-- `abs(a - b) <= timedelta(seconds=window_sec)`
abbrev pub is_near : ℕ → ℕ → ℤ → Bool
is_near a b (pos window_sec) = leb (dist a b) (window_sec * 1000000)
is_near a b (negsuc n) = false

unfoldable pub within_window : List MetricAnomaly → List LogAnomaly → ℤ → Bool
within_window ms ls window_sec =
    some_of
      (λ m.
        some_of (λ l. str_eq m.service l.service && is_near m.detected_at (log_ts l) window_sec) ls)
      ms

abbrev pub change_details : ChangeSignal → Params
change_details c =
    ("change_id", Value.str c.change_id)
    ∷ ("summary", Value.str c.summary)
    ∷ ("changed_at", Value.time c.timestamp)
    ∷ []

-- The first change of a service of the group that is near one of its anomalies.
unfoldable pub change_within_window : List ChangeSignal → List Anomaly → ℤ → Bool × Option Params
change_within_window [] anomalies window_sec = (false, none)
change_within_window (c ∷ changes) anomalies window_sec =
    if some_of (λ a. str_eq c.service (service_of a)) anomalies
      && some_of (λ a. is_near c.timestamp (anom_ts a) window_sec) anomalies
    then (true, some (change_details c))
    else change_within_window changes anomalies window_sec

-- The text before the first character with code `n`, and the text after it.
abbrev pub before_code : ℕ → String → String
before_code n Text.[] = ""
before_code n (Text.◌∷◌ c s) = if code c == n then "" else Text.◌∷◌ c (before_code n s)

abbrev pub after_code : ℕ → String → Option String
after_code n Text.[] = none
after_code n (Text.◌∷◌ c s) = if code c == n then some s else after_code n s

-- `str.isspace` for one character.
abbrev pub is_space : Char → Bool
is_space c =
    some_of (λ n. code c == n)
      (9 ∷ 10 ∷ 11 ∷ 12 ∷ 13 ∷ 28 ∷ 29 ∷ 30 ∷ 31 ∷ 32 ∷ 133 ∷ 160 ∷ 5760 ∷ 8192 ∷ 8193 ∷ 8194 ∷ 8195
        ∷ 8196 ∷ 8197 ∷ 8198 ∷ 8199 ∷ 8200 ∷ 8201 ∷ 8202 ∷ 8232 ∷ 8233 ∷ 8239 ∷ 8287 ∷ 12288 ∷ [])

abbrev pub strip_left : String → String
strip_left Text.[] = ""
strip_left (Text.◌∷◌ c s) = if is_space c then strip_left s else Text.◌∷◌ c s

-- A space at the end goes when nothing but spaces follows.
abbrev pub drop_end : Char → String → String
drop_end c rest = if is_space c && str_eq rest "" then "" else Text.◌∷◌ c rest

abbrev pub strip_right : String → String
strip_right Text.[] = ""
strip_right (Text.◌∷◌ c s) = drop_end c (strip_right s)

-- The message of a first line that has a colon, unless it is blank.
abbrev pub message_or : Option String → String → String
message_or none first = first
message_or (some rest) first =
    if str_eq (strip_right (strip_left rest)) "" then first else strip_right (strip_left rest)

-- 124 is `|` and 58 is `:`.
unfoldable pub log_message : String → String
log_message sig = message_or (after_code 58 (before_code 124 sig)) (before_code 124 sig)

-- `f"{x}"` for a float and for an integer.
pub record Printing : Type 0 where
  pub show_float : Float → String
  pub show_int : ℕ → String

unfoldable pub template_summary : Printing → List MetricAnomaly → List LogAnomaly → String
unfolding log_message concat join
template_summary p ms ls = join "；" (
    map (λ m. concat (m.metric ∷ " = " ∷ p.show_float m.value ∷ [])) ms
    ++ map (λ l. concat (log_message l.signature ∷ " x" ∷ p.show_int l.count ∷ [])) ls)

abbrev pub reason_of : Bool → Bool → Bool → String
reason_of related has_metrics has_logs =
    if related
    then "metric_log_within_window"
    else if has_metrics && not has_logs
    then "metric_only"
    else if has_logs && not has_metrics
    then "log_only"
    else "unrelated"

unfoldable pub l2_correlate :
    CorrelationSpec → List ChangeSignal → List Anomaly → Correlation × Bool × Option Params
unfolding within_window change_within_window metrics logs
l2_correlate cs changes anomalies =
    let ms = metrics anomalies in
    let ls = logs anomalies in
    let related = within_window ms ls cs.metric_log_window_sec in
    let (change_related, recent_change) =
      change_within_window changes anomalies cs.change_window_sec in
    (
      record { related = related; reason = reason_of related (is_nonempty ms) (is_nonempty ls) },
      change_related,
      recent_change,
    )
