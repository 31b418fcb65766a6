-- ===== src/Storage/Targets.antt =====
-- src/aiops_apm/storage/monitor_targets.py, InMemoryMonitorTargetStore. A deleted target keeps its
-- row. Numbers are printed and read by parameters.
pub mod Fresh
use aiops_apm_anomaly_detect.Prelude.{
  ℕ, ◌+◌, String, Bool, true, false, not, ◌&&◌, ◌||◌, Option, none, some, List, [], ◌∷◌, ◌++◌, map,
  keep, or_else, ltb, leb, if◌then◌else◌, str_eq, ◌==◌,
}
use aiops_apm_anomaly_detect.Prelude.Sort.{sort_by, sorted}
use aiops_apm_anomaly_detect.Prelude.Split.{split_at}
use aiops_apm_anomaly_detect.Prelude.Text.{concat, string_ordered}
use aiops_apm_anomaly_detect.Errors.{Result, ok, ◌>>=◌, ◌>>◌}
use aiops_apm_anomaly_detect.Models.Value.{Params}
use aiops_apm_anomaly_detect.Pipeline.Grouping.{distinct_texts}
use aiops_apm_anomaly_detect.Storage.DetectionState.{require_tenant}

-- The public row of a target.
pub record Target : Type 0 where
  pub target_id : String
  pub service : String
  pub signal_type : String
  pub source_type : String
  pub domain : String
  pub source_config : Params
  pub schedule : Params
  pub enabled : Bool
  pub created_at : ℕ
  pub deleted : Bool

-- A stored row: `_public` leaves out the two fields in front.
pub record Stored : Type 0 where
  pub id : ℕ
  pub tenant_id : String
  pub public : Target

pub record TargetStore : Type 0 where
  pub rows : List Stored
  pub next_id : ℕ

-- The body of a request: four keys may be left out.
pub record NewTarget : Type 0 where
  pub service : String
  pub signal_type : String
  pub source_type : String
  pub domain : Option String
  pub source_config : Params
  pub schedule : Option Params
  pub enabled : Option Bool

pub record TargetPatch : Type 0 where
  pub service : Option String
  pub signal_type : Option String
  pub source_type : Option String
  pub domain : Option String
  pub enabled : Option Bool
  pub source_config : Option Params
  pub schedule : Option Params

abbrev pub second_part : List String → Option String
second_part [] = none
second_part (s ∷ []) = none
second_part (s ∷ t ∷ r) = some t

-- How numbers are read and printed: `int(text)` fails as `none`, and `f"{n:04d}"`.
pub record Numerals : Type 0 where
  pub parse_int : String → Option ℕ
  pub show_padded : ℕ → String

module _ (n : Numerals) where
  unfoldable pub parse_suffix : String → ℕ
  unfolding split_at
  parse_suffix target_id = elim (second_part (split_at 45 target_id)) [
    | none ↦ 0
    | some s ↦ or_else (n.parse_int s) 0
  ]

  -- The loop of `_next_target_id`.
  unfoldable pub max_suffix : List Stored → String → ℕ → ℕ
  unfolding parse_suffix
  max_suffix [] tenant_id suffix = suffix
  max_suffix (r ∷ rows) tenant_id suffix =
      let here = parse_suffix r.public.target_id in
      max_suffix rows tenant_id
        (if str_eq r.tenant_id tenant_id && ltb suffix here then here else suffix)

  unfoldable pub next_target_id : List Stored → String → String
  unfolding max_suffix concat
  next_target_id rows tenant_id =
      concat ("MT-" ∷ n.show_padded (max_suffix rows tenant_id 0 + 1) ∷ [])

  -- `default_schedule` is `{"interval_sec": 60}`.
  unfoldable pub create :
      Params → TargetStore → ℕ → String → NewTarget → Result (Target × TargetStore)
  unfolding next_target_id
  create default_schedule store now tenant_id target =
      let row : Target = record {
        target_id = next_target_id store.rows tenant_id;
        service = target.service;
        signal_type = target.signal_type;
        source_type = target.source_type;
        domain = or_else target.domain "application";
        source_config = target.source_config;
        schedule = or_else target.schedule default_schedule;
        enabled = or_else target.enabled true;
        created_at = now;
        deleted = false;
      } in
      let stored : Stored = record { id = store.next_id; tenant_id = tenant_id; public = row } in
      do
        require_tenant tenant_id
        ok (row, record { rows = store.rows ++ stored ∷ []; next_id = store.next_id + 1 })

abbrev wanted : Option String → String → Bool
wanted none s = true
wanted (some t) s = str_eq s t

-- `(created_at, id)`, the later first.
abbrev later_first : Stored → Stored → Bool
later_first r s =
    ltb s.public.created_at r.public.created_at
    || (s.public.created_at == r.public.created_at && leb s.id r.id)

unfoldable pub list_targets :
    TargetStore → String → Option String → Option String → Result (List Target)
unfolding sort_by
list_targets store tenant_id service signal_type =
    let own =
      keep
        (λ r.
          (str_eq r.tenant_id tenant_id && not r.public.deleted)
          && (wanted service r.public.service && wanted signal_type r.public.signal_type))
        store.rows in
    do require_tenant tenant_id; ok (map (λ r. r.public) (sort_by later_first own))

abbrev pub is_target : String → String → Stored → Bool
is_target tenant_id target_id r =
    str_eq r.tenant_id tenant_id && str_eq r.public.target_id target_id

unfoldable pub find_target : List Stored → String → String → Option Target
find_target [] tenant_id target_id = none
find_target (r ∷ rows) tenant_id target_id =
    if is_target tenant_id target_id r then some r.public else find_target rows tenant_id target_id

unfoldable pub get : TargetStore → String → String → Result (Option Target)
unfolding find_target
get store tenant_id target_id = do
  require_tenant tenant_id
  ok (find_target store.rows tenant_id target_id)

-- A loop that writes into the first row of the target and stops.
unfoldable pub write_first : (Target → Target) → List Stored → String → String → List Stored
write_first change [] tenant_id target_id = []
write_first change (r ∷ rows) tenant_id target_id =
    let rest = r ∷ write_first change rows tenant_id target_id in
    if is_target tenant_id target_id r then record r { public = change r.public } ∷ rows else rest

abbrev pub patched : TargetPatch → Target → Target
patched patch row = record row {
  service = or_else patch.service row.service;
  signal_type = or_else patch.signal_type row.signal_type;
  source_type = or_else patch.source_type row.source_type;
  domain = or_else patch.domain row.domain;
  enabled = or_else patch.enabled row.enabled;
  source_config = or_else patch.source_config row.source_config;
  schedule = or_else patch.schedule row.schedule;
}

abbrev changed : (Target → Target) → Option Target → Option Target
changed change none = none
changed change (some row) = some (change row)

unfoldable pub update :
    TargetStore → String → String → TargetPatch → Result (Option Target × TargetStore)
unfolding find_target write_first
update store tenant_id target_id patch = do
  require_tenant tenant_id
  ok (
    changed (patched patch) (find_target store.rows tenant_id target_id),
    record store { rows = write_first (patched patch) store.rows tenant_id target_id },
  )

abbrev pub mark_deleted : Target → Target
mark_deleted row = record row { deleted = true }

unfoldable pub delete : TargetStore → String → String → Result TargetStore
unfolding write_first
delete store tenant_id target_id = do
  require_tenant tenant_id
  ok (record store { rows = write_first mark_deleted store.rows tenant_id target_id })

unfoldable pub load_all_targets : TargetStore → String → Result (List Target)
load_all_targets store tenant_id = do
  require_tenant tenant_id
  ok (
      map (λ r. r.public)
        (keep (λ r. str_eq r.tenant_id tenant_id && (r.public.enabled && not r.public.deleted))
          store.rows))

unfoldable pub target_tenants : TargetStore → List String
unfolding distinct_texts sorted
target_tenants store = sorted (
    distinct_texts
      (map (λ r. r.tenant_id) (keep (λ r. r.public.enabled && not r.public.deleted) store.rows)))
