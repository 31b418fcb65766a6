-- ===== src/Storage/Dynamic/Update.antt =====
-- src/aiops_apm/storage/dynamic_config.py and monitor_targets.py: the UPDATE statements of the
-- PostgreSQL stores, as the values that each placeholder gets. A driver gives the arguments to the
-- placeholders `%s` in order.
use aiops_apm_anomaly_detect.Prelude.{
  ◌≡◌, refl, sym, ap, subst, String, true, ◌||◌, Option, is_nonempty, arith, if◌then◌else◌, str_eq,
  none, some, List, [], ◌∷◌, ◌++◌, str_eq_refl,
}
use aiops_apm_anomaly_detect.Prelude.Dict as Dict
use aiops_apm_anomaly_detect.Prelude.Dict.{string_key}
use aiops_apm_anomaly_detect.Models.Value.{Value, Params, truthy}
use aiops_apm_anomaly_detect.Models.Float.{from_int}

-- The columns of the loop `for key in (...): if key in patch`, each with its argument.
unfoldable pub changes_of : (String → Value → Value) → List String → Params → Params
unfolding Dict.get
changes_of argument [] patch = []
changes_of argument (key ∷ keys) patch = elim (Dict.get patch key) [
  | none ↦ changes_of argument keys patch
  | some v ↦ (key, argument key v) ∷ changes_of argument keys patch
]

abbrev pub as_given : String → Value → Value
as_given key v = v

-- The argument for a column of a monitor target: a flag is a number, a dictionary is its JSON.
abbrev pub target_argument : (Value → Value) → String → Value → Value
unfolding from_int
target_argument as_json key v =
    if str_eq key "enabled"
    then Value.num (from_int (if truthy (some v) then 1 else 0))
    else (if str_eq key "source_config" || str_eq key "schedule" then as_json v else v)

abbrev pub names_of : Params → List String
names_of [] = []
names_of ((k, v) ∷ d) = k ∷ names_of d

abbrev pub values_of : Params → List Value
values_of [] = []
values_of ((k, v) ∷ d) = v ∷ values_of d

-- The arguments, given to the placeholders in order.
unfoldable pub bound : List String → List Value → Params
bound (c ∷ cs) (v ∷ vs) = (c, v) ∷ bound cs vs
bound (c ∷ cs) [] = []
bound [] vs = []

-- `update_maintenance_window`: the statement runs where the patch names a column.
unfoldable pub pg_update_window : Value → Value → Params → Params
unfolding changes_of bound
pg_update_window tenant_id window_id patch =
    let changes = changes_of as_given ("service" ∷ "start_at" ∷ "end_at" ∷ "reason" ∷ []) patch in
    bound (names_of changes ++ "tenant_id" ∷ "id" ∷ []) (tenant_id ∷ window_id ∷ values_of changes)

abbrev pub bound_target : Value → Value → Params → Option Params
unfolding bound
bound_target tenant_id target_id [] = none
bound_target tenant_id target_id (change ∷ rest) =
    let changes = change ∷ rest in
    some (
      bound (names_of changes ++ "tenant_id" ∷ "target_id" ∷ [])
        (values_of changes ++ tenant_id ∷ target_id ∷ []))

-- `update` of the monitor targets; no statement runs where the patch names no column.
unfoldable pub pg_update_target : (Value → Value) → Value → Value → Params → Option Params
unfolding changes_of bound_target target_argument
pg_update_target as_json tenant_id target_id patch = bound_target tenant_id target_id (
    changes_of (target_argument as_json)
      ("service" ∷ "signal_type" ∷ "source_type" ∷ "domain" ∷ "enabled" ∷ "source_config"
        ∷ "schedule" ∷ [])
      patch)

bound-append :
    (changes rest : Params)
    → bound (names_of changes ++ names_of rest) (values_of changes ++ values_of rest)
      ≡ changes ++ rest
unfolding bound
bound-append [] [] = refl
bound-append [] ((k, v) ∷ rest) = ap (λ (d : Params). (k, v) ∷ d) (bound-append [] rest)
bound-append ((k, v) ∷ changes) rest = ap (λ (d : Params). (k, v) ∷ d) (bound-append changes rest)

abbrev pub target_columns : List String
target_columns =
    "service" ∷ "signal_type" ∷ "source_type" ∷ "domain" ∷ "enabled" ∷ "source_config" ∷ "schedule"
    ∷ []

abbrev pub window_columns : List String
window_columns = "service" ∷ "start_at" ∷ "end_at" ∷ "reason" ∷ []

bound_target_lem :
    (tenant_id target_id : Value) (changes : Params)
    → is_nonempty changes ≡ true
    → bound_target tenant_id target_id changes
      ≡ some (changes ++ ("tenant_id", tenant_id) ∷ ("target_id", target_id) ∷ [])
unfolding bound_target
bound_target_lem tenant_id target_id [] h = absurd (ground arith)
bound_target_lem tenant_id target_id (change ∷ rest) h =
    ap some
      (bound-append (change ∷ rest) (("tenant_id", tenant_id) ∷ ("target_id", target_id) ∷ []))

-- When a patch of a maintenance window names a first column, the statement for the window gives
-- that column the id of the tenant. When a patch of a monitor target, which may be another one,
-- names a column, the statement for the target gives each column of the patch its own argument, and
-- looks for the tenant and the target.
pub pg_update_binding :
    (as_json : Value → Value) (tenant_id row_id : Value) (patch target_patch : Params)
    (column : String) (v : Value) (rest : Params)
    → changes_of as_given window_columns patch ≡ (column, v) ∷ rest
    → is_nonempty (changes_of (target_argument as_json) target_columns target_patch) ≡ true
    → (Dict.get (pg_update_window tenant_id row_id patch) column ≡ some tenant_id)
      × (pg_update_target as_json tenant_id row_id target_patch
          ≡ some (
              changes_of (target_argument as_json) target_columns target_patch
              ++ ("tenant_id", tenant_id) ∷ ("target_id", row_id) ∷ []))
unfolding pg_update_target pg_update_window bound Dict.get
pg_update_binding as_json tenant_id row_id patch target_patch column v rest e named = (
  subst
      (λ (d : Params).
        Dict.get (bound (names_of d ++ "tenant_id" ∷ "id" ∷ []) (tenant_id ∷ row_id ∷ values_of d))
          column
        ≡ some tenant_id)
      (sym e) (rw (str_eq_refl column) refl),
  bound_target_lem tenant_id row_id
      (changes_of (target_argument as_json) target_columns target_patch) named,
)
