-- ===== src/Storage/Domains.antt =====
-- src/aiops_apm/storage/domain_config.py, InMemoryDomainConfigStore, and the loader of
-- src/aiops_apm/config/loader.py. A configuration is the dictionary that it is dumped to.
pub mod Versions
use aiops_apm_anomaly_detect.Prelude.{
  ℕ, ◌+◌, String, Bool, true, not, ◌&&◌, Option, none, some, List, [], ◌∷◌, ◌++◌, keep, some_of,
  is_nonempty, or_else, if◌then◌else◌, str_eq,
}
use aiops_apm_anomaly_detect.Errors.{Error, Result, ok, err, ◌>>=◌, ◌>>◌}
use aiops_apm_anomaly_detect.Models.Value.{Params}
use aiops_apm_anomaly_detect.Storage.DetectionState.{require_tenant}

pub record DomainRow : Type 0 where
  pub tenant_id : String
  pub domain : String
  pub config : Params
  pub enabled : Bool
  pub version : ℕ

-- An item of the seed; `enabled` may be left out.
pub record SeedItem : Type 0 where
  pub id : String
  pub enabled : Option Bool
  pub config : Params

unfoldable pub load : List DomainRow → String → Result (List DomainRow)
load rows tenant_id = do
  require_tenant tenant_id
  ok (keep (λ r. str_eq r.tenant_id tenant_id && r.enabled) rows)

abbrev pub is_row : String → String → DomainRow → Bool
is_row tenant_id domain r = str_eq r.tenant_id tenant_id && str_eq r.domain domain

abbrev pub first_version : String → String → Params → DomainRow
first_version tenant_id domain config = record {
  tenant_id = tenant_id;
  domain = domain;
  config = config;
  enabled = true;
  version = 1;
}

abbrev pub next_version : Params → DomainRow → DomainRow
next_version config r = record r { config = config; enabled = true; version = r.version + 1 }

abbrev pub after_row {ℓ} : {A : Type ℓ} → A → ℕ × List A → ℕ × List A
after_row r (version, rows) = (version, r ∷ rows)

-- The loop of `upsert`, with the version that it returns.
unfoldable pub upsert_rows : List DomainRow → String → String → Params → ℕ × List DomainRow
upsert_rows [] tenant_id domain config = (1, first_version tenant_id domain config ∷ [])
upsert_rows (r ∷ rows) tenant_id domain config =
    let rest = after_row r (upsert_rows rows tenant_id domain config) in
    if is_row tenant_id domain r then (r.version + 1, next_version config r ∷ rows) else rest

unfoldable pub upsert : List DomainRow → String → String → Params → Result (ℕ × List DomainRow)
unfolding upsert_rows
upsert rows tenant_id domain config = do
  require_tenant tenant_id
  ok (upsert_rows rows tenant_id domain config)

abbrev pub seeded : String → SeedItem → DomainRow
seeded tenant_id item = record (first_version tenant_id item.id item.config) {
  enabled = or_else item.enabled true;
}

unfoldable pub seed_rows : List DomainRow → String → List SeedItem → List DomainRow
seed_rows rows tenant_id [] = rows
seed_rows rows tenant_id (item ∷ items) =
    seed_rows
      (if some_of (is_row tenant_id item.id) rows then rows else rows ++ seeded tenant_id item ∷ [])
      tenant_id items

unfoldable pub seed : List DomainRow → String → List SeedItem → Result (List DomainRow)
unfolding seed_rows
seed rows tenant_id items = do require_tenant tenant_id; ok (seed_rows rows tenant_id items)

unfoldable pub delete : List DomainRow → String → String → Result (List DomainRow)
delete rows tenant_id domain = do
  require_tenant tenant_id
  ok (keep (λ r. not (is_row tenant_id domain r)) rows)

-- The state of a loader with its store: the rows, and the last rows that were read.
pub record Loader : Type 0 where
  pub rows : List DomainRow
  pub cache : Option (List DomainRow)

abbrev fallback : Loader → Error → Result (List DomainRow) × Loader
fallback l failure = (elim l.cache [ none ↦ err failure | some rows ↦ ok rows ], l)

abbrev remembered :
    Loader → List DomainRow → Result (List DomainRow) → Result (List DomainRow) × Loader
remembered l rows (err failure) = fallback (record l { rows = rows }) failure
remembered l rows (ok found) = (ok found, record { rows = rows; cache = some found })

abbrev reread : Loader → String → Result (List DomainRow) → Result (List DomainRow) × Loader
unfolding load
reread l tenant_id (err failure) = fallback l failure
reread l tenant_id (ok rows) = remembered l rows (load rows tenant_id)

-- `unreachable` is the failure of the database, where it fails.
unfoldable pub loader_load :
    Loader → List SeedItem → String → Option Error → Result (List DomainRow) × Loader
unfolding load seed
loader_load l items tenant_id (some failure) = fallback l failure
loader_load l items tenant_id none = elim (load l.rows tenant_id) [
  | err failure ↦ fallback l failure
  | ok rows ↦
      if is_nonempty rows
      then (ok rows, record l { cache = some rows })
      else reread l tenant_id (seed l.rows tenant_id items)
]

unfoldable pub loader_reload :
    Loader → List SeedItem → String → Option Error → Result (List DomainRow) × Loader
unfolding loader_load
loader_reload l items tenant_id unreachable =
    loader_load (record l { cache = none }) items tenant_id unreachable
