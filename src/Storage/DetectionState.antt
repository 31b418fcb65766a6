-- ===== src/Storage/DetectionState.antt =====
-- src/aiops_apm/storage/detection_state.py, InMemoryDetectionStateStore.
pub mod Laws
use aiops_apm_anomaly_detect.Prelude.{
  ℕ, ◌+◌, String, Bool, not, ◌&&◌, Option, List, [], ◌∷◌, some_of, if◌then◌else◌, str_eq,
}
use aiops_apm_anomaly_detect.Prelude.Dict as Dict
use aiops_apm_anomaly_detect.Prelude.Dict.{text_triple_key, string_key}
use aiops_apm_anomaly_detect.Errors.{Result, ok, Error, value_error, guard, ◌>>=◌, ◌>>◌}

pub record PersistenceState : Type 0 where
  pub consecutive_rounds : ℕ
  pub miss_rounds : ℕ
  pub first_seen : ℕ
  pub last_seen : ℕ

-- `(tenant_id, domain, state_key)`
abbrev pub StateKey : Type 0
StateKey = String × String × String

abbrev pub StateRows : Type 0
StateRows = List (StateKey × PersistenceState)

-- `if not tenant_id: raise ValueError("tenant_id is required")`, at the entry of each method.
abbrev pub require_tenant : String → Result (Unit {0})
require_tenant tenant_id = guard (not (str_eq tenant_id "")) (value_error "tenant_id is required")

unfoldable pub get : StateRows → String → String → String → Result (Option PersistenceState)
unfolding Dict.get
get rows tenant_id domain key = do
  require_tenant tenant_id
  ok (Dict.get rows (tenant_id, domain, key))

unfoldable pub upsert : StateRows → String → String → String → PersistenceState → Result StateRows
unfolding Dict.put
upsert rows tenant_id domain key row = do
  require_tenant tenant_id
  ok (Dict.put rows (tenant_id, domain, key) row)

-- One row of the loop of `sweep`.
abbrev pub swept : String → String → List String → StateKey → PersistenceState → PersistenceState
swept tenant_id domain seen_keys (t, d, k) row =
    if str_eq t tenant_id && (str_eq d domain && not (some_of (λ s. str_eq s k) seen_keys))
    then record row { miss_rounds = row.miss_rounds + 1 }
    else row

unfoldable pub sweep_rows : StateRows → String → String → List String → StateRows
sweep_rows [] tenant_id domain seen_keys = []
sweep_rows ((k, row) ∷ rows) tenant_id domain seen_keys =
    (k, swept tenant_id domain seen_keys k row) ∷ sweep_rows rows tenant_id domain seen_keys

unfoldable pub sweep : StateRows → String → String → List String → Result StateRows
unfolding sweep_rows
sweep rows tenant_id domain seen_keys = do
  require_tenant tenant_id
  ok (sweep_rows rows tenant_id domain seen_keys)

unfoldable pub rows_of_domain : StateRows → String → String → List (String × PersistenceState)
rows_of_domain [] tenant_id domain = []
rows_of_domain (((t, d, k), row) ∷ rows) tenant_id domain =
    let rest = rows_of_domain rows tenant_id domain in
    if str_eq t tenant_id && str_eq d domain then (k, row) ∷ rest else rest

unfoldable pub list_by_domain :
    StateRows → String → String → Result (List (String × PersistenceState))
unfolding rows_of_domain
list_by_domain rows tenant_id domain = do
  require_tenant tenant_id
  ok (rows_of_domain rows tenant_id domain)
