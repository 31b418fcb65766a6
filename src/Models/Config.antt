-- ===== src/Models/Config.antt =====
-- src/aiops_apm/models/config.py. The matcher of a detector is `None`, a text or a dictionary.
use aiops_apm_anomaly_detect.Prelude.{String, Option, List}
use aiops_apm_anomaly_detect.Prelude.Int.{ℤ}
use aiops_apm_anomaly_detect.Models.Float.{Float}
use aiops_apm_anomaly_detect.Models.Value.{Params}

-- The keys that `filter_signals` reads from a dictionary matcher.
pub record MatcherDict : Type 0 where
  pub signal_type : Option String
  pub metric : Option String
  pub level : Option String
  pub service : Option String
  pub labels : Option (List (String × String))

pub data Matcher : Type 0 where
  nothing : Matcher
  text : String → Matcher
  dict : MatcherDict → Matcher
  other : Matcher

pub record DetectorSpec : Type 0 where
  pub signal : Matcher
  pub plugin : String
  pub params : Params
  pub severity : String

pub record SuppressorSpec : Type 0 where
  pub name : String
  pub params : Params

pub record CorrelationSpec : Type 0 where
  pub metric_log_window_sec : ℤ
  pub change_window_sec : ℤ

pub record VerifySpec : Type 0 where
  pub persistence_rounds : ℤ
  pub false_positive_threshold : Float
  pub min_samples : ℤ

pub record DomainConfig : Type 0 where
  pub detectors : List DetectorSpec
  pub suppressors : List SuppressorSpec
  pub correlation : CorrelationSpec
  pub verify : VerifySpec
