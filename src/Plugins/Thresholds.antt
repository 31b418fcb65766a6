-- ===== src/Plugins/Thresholds.antt =====
-- src/aiops_apm/detectors/static_threshold.py and simple_compare.py. The product of two floats is a
-- parameter.
use aiops_apm_anomaly_detect.Prelude.{
  ◌*◌, ◌^◌, String, Bool, true, false, not, Option, none, some, List, [], ◌∷◌, ◌++◌, or_else,
  if◌then◌else◌, str_eq,
}
use aiops_apm_anomaly_detect.Prelude.Dict as Dict
use aiops_apm_anomaly_detect.Prelude.Dict.{string_key}
use aiops_apm_anomaly_detect.Prelude.Int.{pos}
use aiops_apm_anomaly_detect.Errors.{Result, ok, err, value_error, key_error, type_error, ◌>>=◌}
use aiops_apm_anomaly_detect.Models.Float.{Float, float_lt, float_le, from_int, finite}
use aiops_apm_anomaly_detect.Models.Value.{Value, Items, Params}
use aiops_apm_anomaly_detect.Models.Signal.{Signal, MetricSignal}
use aiops_apm_anomaly_detect.Models.Anomaly.{Anomaly, MetricAnomaly}
use aiops_apm_anomaly_detect.Plugins.{DetectMethod}

pub data Operator : Type 0 where
  gt gte lt lte range : Operator

-- `Operator(text)`
unfoldable pub operator_of : Value → Result Operator
operator_of (Value.str s) =
    if str_eq s "gt"
    then ok gt
    else if str_eq s "gte"
    then ok gte
    else if str_eq s "lt"
    then ok lt
    else if str_eq s "lte"
    then ok lte
    else if str_eq s "range"
    then ok range
    else err (value_error "Operator")
operator_of v = err (value_error "Operator")

-- The value as an operand of a comparison; a Boolean is a number.
unfoldable pub number_of : Value → Result Float
unfolding from_int
number_of (Value.num x) = ok x
number_of (Value.bool true) = ok (from_int 1)
number_of (Value.bool false) = ok (from_int 0)
number_of v = err type_error

-- `lo, hi = value`
unfoldable pub pair_of : Value → Result (Value × Value)
pair_of (Value.arr (Items.cons lo (Items.cons hi Items.nil))) = ok (lo, hi)
pair_of (Value.arr items) = err (value_error "unpack")
pair_of v = err type_error

abbrev pub severity_param : Option Value → Result String
severity_param none = ok "warning"
severity_param (some (Value.str s)) = ok s
severity_param (some v) = err (value_error "severity")

-- Whether a metric value is out of bounds.
unfoldable pub is_hit : Operator → Value → Option Value → Float → Result Bool
unfolding number_of pair_of float_lt float_le
is_hit gt threshold bounds x = do t ← number_of threshold; ok (float_lt t x)
is_hit gte threshold bounds x = do t ← number_of threshold; ok (float_le t x)
is_hit lt threshold bounds x = do t ← number_of threshold; ok (float_lt x t)
is_hit lte threshold bounds x = do t ← number_of threshold; ok (float_le x t)
is_hit range threshold bounds x = do
  (lo, hi) ←
      pair_of (or_else bounds (Value.arr (Items.cons threshold (Items.cons threshold Items.nil))))
  l ← number_of lo
  if float_le l x then (number_of hi >>= λ u. ok (not (float_le x u))) else ok true

-- The anomaly that a detector without a baseline makes.
abbrev pub threshold_anomaly : MetricSignal → String → MetricAnomaly
threshold_anomaly s severity = record {
  tenant_id = s.tenant_id;
  service = s.service;
  metric = s.metric;
  value = s.value;
  baseline = none;
  method = "static_threshold";
  severity = severity;
  detected_at = s.timestamp;
  labels = s.labels;
}

unfoldable pub threshold_loop : Operator → Value → Params → List Signal → Result (List Anomaly)
unfolding is_hit Dict.get
threshold_loop operator threshold params [] = ok []
threshold_loop operator threshold params (Signal.log s ∷ r) =
    threshold_loop operator threshold params r
threshold_loop operator threshold params (Signal.metric s ∷ r) = do
  hit ← is_hit operator threshold (Dict.get params "range") s.value
  found ←
      if hit
      then (do
        severity ← severity_param (Dict.get params "severity")
        ok (Anomaly.metric (threshold_anomaly s severity) ∷ []))
      else ok []
  rest ← threshold_loop operator threshold params r
  ok (found ++ rest)

abbrev required : Option Value → String → Result Value
required none name = err (key_error name)
required (some v) name = ok v

unfoldable pub static_threshold : DetectMethod
unfolding threshold_loop operator_of Dict.get
static_threshold signals params = do
  threshold ← required (Dict.get params "threshold") "threshold"
  operator ← operator_of (or_else (Dict.get params "operator") (Value.str "gt"))
  threshold_loop operator threshold params signals

-- 1.5
abbrev pub default_ratio : Float
default_ratio = finite (pos (3 * 2 ^ 1073))

module _ (times : Float → Float → Float) where
  unfoldable pub compare_loop : Float → Value → Params → List Signal → Result (List Anomaly)
  unfolding number_of float_lt Dict.get
  compare_loop baseline ratio params [] = ok []
  compare_loop baseline ratio params (Signal.log s ∷ r) = compare_loop baseline ratio params r
  compare_loop baseline ratio params (Signal.metric s ∷ r) = do
    k ← number_of ratio
    found ←
        if float_lt (times baseline k) s.value
        then (do
          severity ← severity_param (Dict.get params "severity")
          ok (
              Anomaly.metric (record (threshold_anomaly s severity) {
                baseline = some baseline;
                method = "simple_compare";
                labels = [];
              })
              ∷ []))
        else ok []
    rest ← compare_loop baseline ratio params r
    ok (found ++ rest)

  -- No metric signal is there to compare.
  abbrev no_metrics : List Signal → Bool
  no_metrics [] = true
  no_metrics (Signal.log s ∷ r) = no_metrics r
  no_metrics (Signal.metric s ∷ r) = false

  abbrev with_baseline : Option Value → Params → List Signal → Result (List Anomaly)
  unfolding compare_loop number_of Dict.get
  with_baseline none params signals = ok []
  with_baseline (some Value.null) params signals = ok []
  with_baseline (some v) params signals = if no_metrics signals then ok [] else (do
    baseline ← number_of v
    compare_loop baseline (or_else (Dict.get params "ratio") (Value.num default_ratio)) params
        signals)

  unfoldable pub simple_compare : DetectMethod
  unfolding with_baseline Dict.get
  simple_compare signals params = with_baseline (Dict.get params "baseline") params signals
