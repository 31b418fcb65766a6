-- ===== src/Pipeline/Context.antt =====
-- src/aiops_apm/pipeline/context.py, build_context: what a round reads, from the stores of the
-- configuration. The validation of a configuration by its model class is a parameter.
use aiops_apm_anomaly_detect.Prelude.{
  ℕ, String, Option, none, some, List, [], ◌∷◌, map, str_eq, if◌then◌else◌,
}
use aiops_apm_anomaly_detect.Prelude.Int.{pos}
use aiops_apm_anomaly_detect.Prelude.Dict as Dict
use aiops_apm_anomaly_detect.Prelude.Dict.{string_key}
use aiops_apm_anomaly_detect.Prelude.Text.{concat}
use aiops_apm_anomaly_detect.Errors.{Result, ok, err, ◌>>=◌, ◌>>◌, value_error}
use aiops_apm_anomaly_detect.Models.Value.{Params}
use aiops_apm_anomaly_detect.Models.Signal.{ChangeSignal}
use aiops_apm_anomaly_detect.Models.Config.{DomainConfig}
use aiops_apm_anomaly_detect.Plugins.{Registry, MaintenanceWindow, BlacklistEntry}
use aiops_apm_anomaly_detect.Pipeline.Verify.{FprEntry}
use aiops_apm_anomaly_detect.Pipeline.Emit.{RoundContext, SummaryProvider}
use aiops_apm_anomaly_detect.Storage.DetectionState.{require_tenant}
use aiops_apm_anomaly_detect.Storage.Rounds.{RoundRows}
use aiops_apm_anomaly_detect.Storage.Dynamic.{
  Windows, WindowRow, Blacklist, BlacklistRow, rows_of, load_maintenance_windows, load_blacklist,
}
use aiops_apm_anomaly_detect.Storage.Dynamic.Fpr.{FprTable, FprRow, load_fpr}
use aiops_apm_anomaly_detect.Storage.Domains.{DomainRow, SeedItem, loader_load}

-- A row of the changes of a tenant.
pub record ChangeRow : Type 0 where
  pub change_id : String
  pub service : String
  pub change_type : String
  pub summary : String
  pub changed_at : ℕ

-- The stores that a context is read from; `seed` is the parsed seed file.
pub record ConfigStores : Type 0 where
  pub domains : List DomainRow
  pub seed : List SeedItem
  pub windows : Windows
  pub blacklist : Blacklist
  pub fpr : FprTable
  pub changes : List (String × List ChangeRow)

unfoldable pub load_changes : List (String × List ChangeRow) → String → Result (List ChangeRow)
unfolding Dict.get
load_changes store tenant_id = do require_tenant tenant_id; ok (rows_of store tenant_id)

-- The configuration of the first row of the domain, where there is one.
unfoldable pub config_of :
    (Params → Result DomainConfig) → List DomainRow → String → Result (Option DomainConfig)
config_of validate [] domain = ok none
config_of validate (r ∷ rows) domain =
    let rest = config_of validate rows domain in
    if str_eq r.domain domain then (validate r.config >>= λ c. ok (some c)) else rest

abbrev required : String → String → Option DomainConfig → Result DomainConfig
unfolding concat
required domain tenant_id none =
    err
      (value_error (concat ("no domain config for domain=" ∷ domain ∷ " tenant=" ∷ tenant_id ∷ [])))
required domain tenant_id (some config) = ok config

abbrev pub window_entry : WindowRow → MaintenanceWindow
window_entry r = record {
  service = r.service;
  start_at = r.start_at;
  end_at = r.end_at;
  reason = r.reason;
}

abbrev pub blacklist_entry : BlacklistRow → BlacklistEntry
blacklist_entry r = record { service = r.service; signal = r.signal; reason = r.reason }

abbrev pub fpr_entry : String × FprRow → String × FprEntry
fpr_entry (key, row) = (key, record { fpr = row.fpr; total = pos row.total })

abbrev pub change_signal : String → ChangeRow → ChangeSignal
change_signal tenant_id r = record {
  tenant_id = tenant_id;
  service = r.service;
  change_id = r.change_id;
  type = r.change_type;
  summary = r.summary;
  timestamp = r.changed_at;
}

-- What the caller hands over.
pub record ContextArgs : Type 0 where
  pub tenant_id : String
  pub domain : String
  pub registry : Registry
  pub now : ℕ
  pub trace_id : String
  pub degraded_sources : List String
  pub summary_provider : Option SummaryProvider
  pub rounds : RoundRows

-- The loader is a new one, so it starts with no cache.
unfoldable pub build_context :
    (Params → Result DomainConfig) → ConfigStores → ContextArgs → Result RoundContext
unfolding loader_load config_of load_maintenance_windows load_blacklist load_fpr load_changes concat
build_context validate s a = do
  rows ← (loader_load (record { rows = s.domains; cache = none }) s.seed a.tenant_id none).0
  found ← config_of validate rows a.domain
  config ← required a.domain a.tenant_id found
  windows ← load_maintenance_windows s.windows a.tenant_id
  blacklist ← load_blacklist s.blacklist a.tenant_id
  fpr ← load_fpr s.fpr a.tenant_id
  changes ← load_changes s.changes a.tenant_id
  ok (record {
    trace_id = a.trace_id;
    tenant_id = a.tenant_id;
    domain = a.domain;
    now = a.now;
    domain_config = config;
    registry = a.registry;
    suppress = record {
      maintenance_windows = map window_entry windows;
      blacklist = map blacklist_entry blacklist;
    };
    changes = map (change_signal a.tenant_id) changes;
    fpr = map fpr_entry fpr;
    degraded_sources = a.degraded_sources;
    summary_provider = a.summary_provider;
    rounds_store = some a.rounds;
  })
