-- ===== src/Models/Anomaly.antt =====
-- src/aiops_apm/models/anomaly.py.
use aiops_apm_anomaly_detect.Prelude.{ℕ, String, Option, List, [], ◌∷◌}
use aiops_apm_anomaly_detect.Models.Float.{Float}

pub record MetricAnomaly : Type 0 where
  pub tenant_id : String
  pub service : String
  pub metric : String
  pub value : Float
  pub baseline : Option Float
  pub method : String
  pub severity : String
  pub detected_at : ℕ
  pub labels : List (String × String)

pub record LogAnomaly : Type 0 where
  pub tenant_id : String
  pub service : String
  pub level : String
  pub signature : String
  pub pattern : String
  pub count : ℕ
  pub first_seen : ℕ
  pub severity : String
  pub detected_at : Option ℕ
  pub trace_ids : List String

pub data Anomaly : Type 0 where
  metric : MetricAnomaly → Anomaly
  log : LogAnomaly → Anomaly

-- Fields that both kinds have.
abbrev pub service_of : Anomaly → String
service_of (metric a) = a.service
service_of (log a) = a.service

abbrev pub severity_of : Anomaly → String
severity_of (metric a) = a.severity
severity_of (log a) = a.severity

-- `[a for a in anomalies if a.kind == "metric"]`
unfoldable pub metrics : List Anomaly → List MetricAnomaly
metrics [] = []
metrics (metric a ∷ r) = a ∷ metrics r
metrics (log a ∷ r) = metrics r

-- `[a for a in anomalies if a.kind == "log"]`
unfoldable pub logs : List Anomaly → List LogAnomaly
logs [] = []
logs (metric a ∷ r) = logs r
logs (log a ∷ r) = a ∷ logs r
