-- ===== src/Pipeline/Detect.antt =====
-- src/aiops_apm/pipeline/l1_detect.py.
pub mod Isolation
use aiops_apm_anomaly_detect.Prelude.{
  ℕ, String, Bool, true, false, Option, List, [], ◌∷◌, ◌++◌, map, is_nonempty, if◌then◌else◌,
}
use aiops_apm_anomaly_detect.Errors.{Result, ok, err, type_error, ◌>>=◌}
use aiops_apm_anomaly_detect.Models.Signal.{Signal}
use aiops_apm_anomaly_detect.Models.Anomaly.{Anomaly}
use aiops_apm_anomaly_detect.Models.Config.{DetectorSpec}
use aiops_apm_anomaly_detect.Pipeline.Filter.{filter_signals}
use aiops_apm_anomaly_detect.Plugins.{Plugin, Registry, get}

-- The severity of the spec, and the plugin's name for a metric anomaly.
unfoldable pub stamp : String → String → Anomaly → Anomaly
stamp severity name (Anomaly.metric a) =
    Anomaly.metric (record a { severity = severity; method = name })
stamp severity name (Anomaly.log a) = Anomaly.log (record a { severity = severity })

-- `detector.detect(matched, params)`, stamped; a plugin without `detect` fails. A failure is
-- logged, and adds nothing.
unfoldable pub detected : Plugin → DetectorSpec → List Signal → List Anomaly
unfolding stamp
detected (Plugin.detector name detect) dc matched = elim (detect matched dc.params) [
  | ok found ↦ map (stamp dc.severity name) found
  | err e ↦ []
]
detected (Plugin.suppressor check) dc matched = []
detected Plugin.other dc matched = []

unfoldable pub l1_detect :
    List DetectorSpec → Registry → List Signal → List Anomaly → Result (List Anomaly)
unfolding filter_signals detected get
l1_detect [] registry signals anomalies = ok anomalies
l1_detect (dc ∷ specs) registry signals anomalies = do
  plugin ← get registry "detector" dc.plugin
  let matched = filter_signals signals dc.signal
  l1_detect specs registry signals
      (anomalies ++ (if is_nonempty matched then detected plugin dc matched else []))
