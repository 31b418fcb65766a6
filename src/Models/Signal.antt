-- ===== src/Models/Signal.antt =====
-- src/aiops_apm/models/signal.py. `ref` is the identity of the object, which `is` compares.
-- Times are microseconds on one clock.
use aiops_apm_anomaly_detect.Prelude.{ℕ, String, Option, List}
use aiops_apm_anomaly_detect.Models.Float.{Float}

pub record MetricSignal : Type 0 where
  pub ref : ℕ
  pub tenant_id : String
  pub service : String
  pub metric : String
  pub value : Float
  pub timestamp : ℕ
  pub labels : List (String × String)

pub record LogSignal : Type 0 where
  pub ref : ℕ
  pub tenant_id : String
  pub service : String
  pub level : String
  pub message : String
  pub stack_trace : Option String
  pub timestamp : ℕ
  pub trace_id : Option String
  pub signature : Option String

pub record ChangeSignal : Type 0 where
  pub tenant_id : String
  pub service : String
  pub change_id : String
  pub type : String
  pub summary : String
  pub timestamp : ℕ

-- What a collector yields.
pub data Signal : Type 0 where
  metric : MetricSignal → Signal
  log : LogSignal → Signal

abbrev pub ref_of : Signal → ℕ
ref_of (metric s) = s.ref
ref_of (log s) = s.ref

abbrev pub service_of : Signal → String
service_of (metric s) = s.service
service_of (log s) = s.service

abbrev pub timestamp_of : Signal → ℕ
timestamp_of (metric s) = s.timestamp
timestamp_of (log s) = s.timestamp
