-- ===== src/Pipeline/Filter.antt =====
-- src/aiops_apm/pipeline/filter_signals.py.
use aiops_apm_anomaly_detect.Prelude.{
  String, Bool, true, false, ◌&&◌, ◌||◌, Option, none, some, List, [], keep, all_of, or_else,
  if◌then◌else◌, str_eq,
}
use aiops_apm_anomaly_detect.Prelude.Dict as Dict
use aiops_apm_anomaly_detect.Prelude.Dict.{string_key}
use aiops_apm_anomaly_detect.Models.Signal.{Signal}
use aiops_apm_anomaly_detect.Models.Config.{Matcher, MatcherDict}

abbrev pub label_is : Option String → String → Bool
label_is none v = false
label_is (some w) v = str_eq w v

unfoldable pub labels_match : List (String × String) → List (String × String) → Bool
unfolding Dict.get
labels_match actual wanted = all_of (λ e. label_is (Dict.get actual e.0) e.1) wanted

-- `isinstance(s, MetricSignal) and s.metric == matcher`, or the same of a log's level
abbrev pub is_named : String → Signal → Bool
is_named matcher (Signal.metric s) = str_eq s.metric matcher
is_named matcher (Signal.log s) = str_eq s.level matcher

-- `not wanted or actual == wanted`
abbrev pub unset_or_is : Option String → String → Bool
unset_or_is none actual = true
unset_or_is (some wanted) actual = str_eq wanted "" || str_eq actual wanted

abbrev pub type_is : Option String → String → Bool
type_is none t = false
type_is (some s) t = str_eq s t

abbrev pub dict_match : MatcherDict → Signal → Bool
unfolding labels_match
dict_match m (Signal.metric s) =
    type_is m.signal_type "metric"
    && (unset_or_is m.metric s.metric
        && (labels_match s.labels (or_else m.labels []) && unset_or_is m.service s.service))
dict_match m (Signal.log s) =
    type_is m.signal_type "log" && (unset_or_is m.level s.level && unset_or_is m.service s.service)

unfoldable pub filter_signals : List Signal → Matcher → List Signal
unfolding dict_match
filter_signals signals Matcher.nothing = signals
filter_signals signals (Matcher.text t) =
    if str_eq t "*" || str_eq t "" then signals else keep (is_named t) signals
filter_signals signals (Matcher.dict m) = keep (dict_match m) signals
filter_signals signals Matcher.other = []
