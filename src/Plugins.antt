-- ===== src/Plugins.antt =====
-- src/aiops_apm/plugins: the registry, and the built-in plugins of detectors/ and suppressors/.
-- A plugin of a third party is any value of `Plugin`; the discovery of plugins is not modelled.
pub mod Suppressors
pub mod Thresholds
use aiops_apm_anomaly_detect.Prelude.{
  ℕ, String, Bool, true, false, Option, none, some, List, [], ◌∷◌, or_else, map,
}
use aiops_apm_anomaly_detect.Prelude.Dict as Dict
use aiops_apm_anomaly_detect.Prelude.Dict.{string_key}
use aiops_apm_anomaly_detect.Prelude.Text.{concat}
use aiops_apm_anomaly_detect.Errors.{
  Result, ok, err, Error, ErrorCode, app_exception, plugin_not_found,
}
use aiops_apm_anomaly_detect.Models.Value.{Params}
use aiops_apm_anomaly_detect.Models.Signal.{Signal}
use aiops_apm_anomaly_detect.Models.Anomaly.{Anomaly}

-- Entries of the two tables that suppressors read from the context.
pub record MaintenanceWindow : Type 0 where
  pub service : String
  pub start_at : ℕ
  pub end_at : ℕ
  pub reason : Option String

pub record BlacklistEntry : Type 0 where
  pub service : String
  pub signal : String
  pub reason : Option String

pub record SuppressContext : Type 0 where
  pub maintenance_windows : List MaintenanceWindow
  pub blacklist : List BlacklistEntry

abbrev pub BatchCheck : Type 0
BatchCheck = List Signal → SuppressContext → Params → List (Signal × Option String)

abbrev pub DetectMethod : Type 0
DetectMethod = List Signal → Params → Result (List Anomaly)

-- A plugin by the base class that it has; a detector has its `name`.
pub data Plugin : Type 0 where
  suppressor : BatchCheck → Plugin
  detector : (name : String) → DetectMethod → Plugin
  other : Plugin

-- `_active`: a dictionary for each kind.
abbrev pub Registry : Type 0
Registry = List (String × List (String × Plugin))

unfoldable pub register : Registry → String → String → Plugin → Registry
unfolding Dict.get Dict.put
register active kind name plugin =
    Dict.put active kind (Dict.put (or_else (Dict.get active kind) []) name plugin)

abbrev present : Option Plugin → String → String → Result Plugin
unfolding concat
present none kind name = err (app_exception plugin_not_found (concat (kind ∷ "/" ∷ name ∷ [])))
present (some plugin) kind name = ok plugin

unfoldable pub get : Registry → String → String → Result Plugin
unfolding Dict.get present
get active kind name = present (Dict.get (or_else (Dict.get active kind) []) name) kind name

-- `list(kind)`, and `list()`.
unfoldable pub names : Registry → String → List String
unfolding Dict.get
names active kind = map (λ e. e.0) (or_else (Dict.get active kind) [])

unfoldable pub all_names : Registry → List (String × List String)
all_names active = map (λ e. (e.0, map (λ p. p.0) e.1)) active
