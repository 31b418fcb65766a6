-- ===== src/Models/Record.antt =====
-- src/aiops_apm/models/record.py.
use aiops_apm_anomaly_detect.Prelude.{
  ℕ, String, Bool, Option, none, some, List, ◌++◌, map, str_eq, if◌then◌else◌,
}
use aiops_apm_anomaly_detect.Models.Float.{Float}
use aiops_apm_anomaly_detect.Models.Value.{Value, Params}
use aiops_apm_anomaly_detect.Models.Anomaly.{Anomaly, MetricAnomaly, LogAnomaly}
use aiops_apm_anomaly_detect.Models.Fingerprint.{Hashing, group_key}

pub record Correlation : Type 0 where
  pub related : Bool
  pub reason : String

pub record Verification : Type 0 where
  pub passed : Bool
  pub persistence_ok : Bool
  pub resample_ok : Bool
  pub false_positive_rate : Float
  pub final_severity : String

pub record ProblemRecord : Type 0 where
  pub record_id : String
  pub source : String
  pub tenant_id : String
  pub domain : String
  pub state : String
  pub service : String
  pub instance_id : Option String
  pub severity : String
  pub detected_at : ℕ
  pub first_seen_at : Option ℕ
  pub last_seen_at : Option ℕ
  pub occurrence_count : ℕ
  pub resolved_at : Option ℕ
  pub resolve_reason : Option String
  pub symptom : Params
  pub metric_anomalies : List MetricAnomaly
  pub log_anomalies : List LogAnomaly
  pub correlation : Correlation
  pub change_related : Bool
  pub recent_change : Option Params
  pub verification : Verification
  pub evidence : List Value
  pub trace_id : Option String
  pub group_key_service : Option String

abbrev pub anomalies_of : List MetricAnomaly → List LogAnomaly → List Anomaly
anomalies_of ms ls = map Anomaly.metric ms ++ map Anomaly.log ls

-- `a or b` for a text that may be `None`; the empty text is false too.
abbrev pub text_or : Option String → String → String
text_or none d = d
text_or (some s) d = if str_eq s "" then d else s

-- The property `group_key`.
unfoldable pub record_group_key : Hashing → ProblemRecord → String
unfolding group_key
record_group_key h r =
    group_key h r.tenant_id r.domain (text_or r.group_key_service r.service)
      (anomalies_of r.metric_anomalies r.log_anomalies)
