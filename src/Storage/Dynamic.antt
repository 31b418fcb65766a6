-- ===== src/Storage/Dynamic.antt =====
-- src/aiops_apm/storage/dynamic_config.py, InMemoryDynamicConfigStore: maintenance windows and the
-- blacklist, a list of rows for each tenant.
pub mod Fpr
pub mod Laws
pub mod Update
use aiops_apm_anomaly_detect.Prelude.{
  ℕ, ◌+◌, String, Bool, true, not, Option, none, some, List, [], ◌∷◌, ◌++◌, keep, or_else, ltb,
  ◌==◌, if◌then◌else◌, str_eq,
}
use aiops_apm_anomaly_detect.Prelude.Dict as Dict
use aiops_apm_anomaly_detect.Prelude.Dict.{string_key}
use aiops_apm_anomaly_detect.Errors.{Result, ok, ◌>>◌}
use aiops_apm_anomaly_detect.Storage.DetectionState.{require_tenant}

pub record WindowRow : Type 0 where
  pub id : ℕ
  pub tenant_id : String
  pub service : String
  pub start_at : ℕ
  pub end_at : ℕ
  pub reason : Option String

pub record BlacklistRow : Type 0 where
  pub id : ℕ
  pub tenant_id : String
  pub domain : String
  pub service : String
  pub signal : String
  pub reason : Option String
  pub enabled : Bool

-- `store.get(tenant_id, [])`
abbrev pub rows_of {ℓ} : {A : Type ℓ} → List (String × List A) → String → List A
rows_of store tenant_id = or_else (Dict.get store tenant_id) []

-- `max((r["id"] for r in rows), default=0)`
unfoldable pub max_id {ℓ} : {A : Type ℓ} → (A → ℕ) → List A → ℕ
max_id id [] = 0
max_id id (r ∷ rows) = let rest = max_id id rows in if ltb rest (id r) then id r else rest

-- `_find_row`
unfoldable pub row_with_id {ℓ} : {A : Type ℓ} → (A → ℕ) → List A → ℕ → Option A
row_with_id id [] row_id = none
row_with_id id (r ∷ rows) row_id = if id r == row_id then some r else row_with_id id rows row_id

-- The writes into the row that `_find_row` found.
unfoldable pub patch_first {ℓ} : {A : Type ℓ} → (A → ℕ) → (A → A) → List A → ℕ → List A
patch_first id patch [] row_id = []
patch_first id patch (r ∷ rows) row_id =
    let rest = r ∷ patch_first id patch rows row_id in
    if id r == row_id then patch r ∷ rows else rest

abbrev pub Windows : Type 0
Windows = List (String × List WindowRow)

abbrev pub Blacklist : Type 0
Blacklist = List (String × List BlacklistRow)

unfoldable pub create_maintenance_window :
    Windows → String → String → ℕ → ℕ → Option String → Result (WindowRow × Windows)
unfolding Dict.get Dict.put max_id
create_maintenance_window store tenant_id service start_at end_at reason =
    let rows = rows_of store tenant_id in
    let row : WindowRow = record {
      id = max_id (λ (r : WindowRow). r.id) rows + 1;
      tenant_id = tenant_id;
      service = service;
      start_at = start_at;
      end_at = end_at;
      reason = reason;
    } in
    do require_tenant tenant_id; ok (row, Dict.put store tenant_id (rows ++ row ∷ []))

unfoldable pub list_maintenance_windows : Windows → String → Option String → Result (List WindowRow)
unfolding Dict.get
list_maintenance_windows store tenant_id service = do
  require_tenant tenant_id
  ok (elim service [
    | none ↦ rows_of store tenant_id
    | some wanted ↦ keep (λ r. str_eq r.service wanted) (rows_of store tenant_id)
  ])

-- The keys that a patch may have.
pub record WindowPatch : Type 0 where
  pub service : Option String
  pub start_at : Option ℕ
  pub end_at : Option ℕ
  pub reason : Option (Option String)

abbrev pub patched_window : WindowPatch → WindowRow → WindowRow
patched_window patch row = record row {
  service = or_else patch.service row.service;
  start_at = or_else patch.start_at row.start_at;
  end_at = or_else patch.end_at row.end_at;
  reason = or_else patch.reason row.reason;
}

-- The store is written only where the row is there.
abbrev pub update_rows {ℓ} :
    {A : Type ℓ}
    → (A → ℕ)
    → (A → A)
    → List (String × List A)
    → String
    → ℕ
    → Option A
    → Option A × List (String × List A)
unfolding Dict.get Dict.put patch_first
update_rows id patch store tenant_id row_id none = (none, store)
update_rows id patch store tenant_id row_id (some row) = (
  some (patch row),
  Dict.put store tenant_id (patch_first id patch (rows_of store tenant_id) row_id),
)

unfoldable pub update_maintenance_window :
    Windows → String → ℕ → WindowPatch → Result (Option WindowRow × Windows)
unfolding Dict.get Dict.put row_with_id patch_first
update_maintenance_window store tenant_id window_id patch = do
  require_tenant tenant_id
  ok (
      update_rows (λ (r : WindowRow). r.id) (patched_window patch) store tenant_id window_id
        (row_with_id (λ (r : WindowRow). r.id) (rows_of store tenant_id) window_id))

unfoldable pub delete_maintenance_window : Windows → String → ℕ → Result Windows
unfolding Dict.get Dict.put
delete_maintenance_window store tenant_id window_id = do
  require_tenant tenant_id
  ok (Dict.put store tenant_id (keep (λ r. not (r.id == window_id)) (rows_of store tenant_id)))

unfoldable pub load_maintenance_windows : Windows → String → Result (List WindowRow)
unfolding Dict.get
load_maintenance_windows store tenant_id = do require_tenant tenant_id; ok (rows_of store tenant_id)

-- The entry of a request: `domain` and `enabled` may be left out.
pub record NewEntry : Type 0 where
  pub domain : Option String
  pub service : String
  pub signal : String
  pub reason : Option String
  pub enabled : Option Bool

unfoldable pub create_blacklist : Blacklist → String → NewEntry → Result (BlacklistRow × Blacklist)
unfolding Dict.get Dict.put max_id
create_blacklist store tenant_id entry =
    let rows = rows_of store tenant_id in
    let row : BlacklistRow = record {
      id = max_id (λ (r : BlacklistRow). r.id) rows + 1;
      tenant_id = tenant_id;
      domain = or_else entry.domain "application";
      service = entry.service;
      signal = entry.signal;
      reason = entry.reason;
      enabled = or_else entry.enabled true;
    } in
    do require_tenant tenant_id; ok (row, Dict.put store tenant_id (rows ++ row ∷ []))

unfoldable pub list_blacklist : Blacklist → String → Result (List BlacklistRow)
unfolding Dict.get
list_blacklist store tenant_id = do require_tenant tenant_id; ok (rows_of store tenant_id)

unfoldable pub load_blacklist : Blacklist → String → Result (List BlacklistRow)
unfolding Dict.get
load_blacklist store tenant_id = do
  require_tenant tenant_id
  ok (keep (λ r. r.enabled) (rows_of store tenant_id))

pub record EntryPatch : Type 0 where
  pub domain : Option String
  pub service : Option String
  pub signal : Option String
  pub reason : Option (Option String)
  pub enabled : Option Bool

abbrev pub patched_entry : EntryPatch → BlacklistRow → BlacklistRow
patched_entry patch row = record row {
  domain = or_else patch.domain row.domain;
  service = or_else patch.service row.service;
  signal = or_else patch.signal row.signal;
  reason = or_else patch.reason row.reason;
  enabled = or_else patch.enabled row.enabled;
}

unfoldable pub update_blacklist :
    Blacklist → String → ℕ → EntryPatch → Result (Option BlacklistRow × Blacklist)
unfolding Dict.get Dict.put row_with_id patch_first
update_blacklist store tenant_id entry_id patch = do
  require_tenant tenant_id
  ok (
      update_rows (λ (r : BlacklistRow). r.id) (patched_entry patch) store tenant_id entry_id
        (row_with_id (λ (r : BlacklistRow). r.id) (rows_of store tenant_id) entry_id))

unfoldable pub delete_blacklist : Blacklist → String → ℕ → Result Blacklist
unfolding Dict.get Dict.put
delete_blacklist store tenant_id entry_id = do
  require_tenant tenant_id
  ok (Dict.put store tenant_id (keep (λ r. not (r.id == entry_id)) (rows_of store tenant_id)))
