-- ===== src/Storage/Rounds.antt =====
-- src/aiops_apm/storage/rounds.py, InMemoryRoundStore: the rounds, and the targets of each round.
-- The JSON-safe copies of `_json_safe` are the values themselves.
use aiops_apm_anomaly_detect.Prelude.{
  ℕ, String, ◌&&◌, Option, none, some, List, [], ◌∷◌, map, keep, take, drop, or_else, leb, str_eq,
}
use aiops_apm_anomaly_detect.Prelude.Dict as Dict
use aiops_apm_anomaly_detect.Prelude.Dict.{text_pair_key, text_triple_key}
use aiops_apm_anomaly_detect.Prelude.Sort.{sort_by}
use aiops_apm_anomaly_detect.Prelude.Text.{text_leb}
use aiops_apm_anomaly_detect.Errors.{Result, ok, ◌>>◌}
use aiops_apm_anomaly_detect.Models.Value.{Params}
use aiops_apm_anomaly_detect.Storage.DetectionState.{require_tenant}

pub record RoundRow : Type 0 where
  pub round_id : String
  pub tenant_id : String
  pub domain : String
  pub started_at : ℕ
  pub finished_at : Option ℕ
  pub status : String
  pub target_ids : List String
  pub signals_count : ℕ
  pub anomaly_count : ℕ
  pub record_count : ℕ
  pub suppressed_count : ℕ
  pub degraded_sources : List String
  pub timeline : List Params

pub record TargetRow : Type 0 where
  pub round_id : String
  pub tenant_id : String
  pub target_id : String
  pub status : String
  pub signals_count : ℕ
  pub anomaly_count : ℕ
  pub record_count : ℕ
  pub suppressed_count : ℕ
  pub error : Option String
  pub request_params : Option Params
  pub started_at : ℕ
  pub finished_at : Option ℕ

abbrev pub RoundRows : Type 0
RoundRows = List ((String × String) × RoundRow)

abbrev pub TargetKey : Type 0
TargetKey = String × String × String

abbrev pub TargetRows : Type 0
TargetRows = List (TargetKey × TargetRow)

unfoldable pub create_round :
    RoundRows
    → String
    → String
    → String
    → (started_at : ℕ) → (status : String) → (target_ids : List String) → (timeline : List Params)
    → Result RoundRows
unfolding Dict.put
create_round rows tenant_id round_id domain started_at status target_ids timeline = do
  require_tenant tenant_id
  ok (
      Dict.put rows (tenant_id, round_id)
        (record {
          round_id = round_id;
          tenant_id = tenant_id;
          domain = domain;
          started_at = started_at;
          finished_at = none;
          status = status;
          target_ids = target_ids;
          signals_count = 0;
          anomaly_count = 0;
          record_count = 0;
          suppressed_count = 0;
          degraded_sources = [];
          timeline = timeline;
        }))

-- The optional arguments of `update_status`.
pub record RoundUpdate : Type 0 where
  pub timeline : Option (List Params)
  pub signals_count : Option ℕ
  pub anomaly_count : Option ℕ
  pub record_count : Option ℕ
  pub suppressed_count : Option ℕ
  pub degraded_sources : Option (List String)

abbrev pub updated_round : RoundRow → String → ℕ → RoundUpdate → RoundRow
updated_round row status ended_at u = record row {
  status = status;
  finished_at = some ended_at;
  timeline = or_else u.timeline row.timeline;
  signals_count = or_else u.signals_count row.signals_count;
  anomaly_count = or_else u.anomaly_count row.anomaly_count;
  record_count = or_else u.record_count row.record_count;
  suppressed_count = or_else u.suppressed_count row.suppressed_count;
  degraded_sources = or_else u.degraded_sources row.degraded_sources;
}

unfoldable pub update_status :
    RoundRows → String → String → String → ℕ → RoundUpdate → Result RoundRows
unfolding Dict.get Dict.put
update_status rows tenant_id round_id status ended_at u = do
  require_tenant tenant_id
  ok (elim (Dict.get rows (tenant_id, round_id)) [
    | none ↦ rows
    | some row ↦ Dict.put rows (tenant_id, round_id) (updated_round row status ended_at u)
  ])

unfoldable pub get_round : RoundRows → String → String → Result (Option RoundRow)
unfolding Dict.get
get_round rows tenant_id round_id = do
  require_tenant tenant_id
  ok (Dict.get rows (tenant_id, round_id))

abbrev pub only {ℓ} : {A : Type ℓ} → Option String → (A → String) → List A → List A
only none field rows = rows
only (some wanted) field rows = keep (λ r. str_eq (field r) wanted) rows

unfoldable pub list_rounds :
    RoundRows → String → Option String → Option String → ℕ → ℕ → Result (List RoundRow)
unfolding sort_by
list_rounds rows tenant_id domain status limit offset =
    let own = keep (λ r. str_eq r.tenant_id tenant_id) (map (λ e. e.1) rows) in
    let chosen = only status (λ r. r.status) (only domain (λ r. r.domain) own) in
    do
      require_tenant tenant_id
      ok (take limit (drop offset (sort_by (λ r s. leb s.started_at r.started_at) chosen)))

unfoldable pub create_target : TargetRows → String → String → String → ℕ → Result TargetRows
unfolding Dict.put
create_target rows tenant_id round_id target_id started_at = do
  require_tenant tenant_id
  ok (
      Dict.put rows (tenant_id, round_id, target_id)
        (record {
          round_id = round_id;
          tenant_id = tenant_id;
          target_id = target_id;
          status = "running";
          signals_count = 0;
          anomaly_count = 0;
          record_count = 0;
          suppressed_count = 0;
          error = none;
          request_params = none;
          started_at = started_at;
          finished_at = none;
        }))

-- The optional arguments of `update_target_status`.
pub record TargetUpdate : Type 0 where
  pub status : Option String
  pub finished_at : Option ℕ
  pub signals_count : Option ℕ
  pub anomaly_count : Option ℕ
  pub record_count : Option ℕ
  pub suppressed_count : Option ℕ
  pub error : Option String
  pub request_params : Option Params

abbrev pub or_kept {ℓ} : {A : Type ℓ} → Option A → Option A → Option A
or_kept none old = old
or_kept (some a) old = some a

abbrev pub updated_target : TargetRow → TargetUpdate → TargetRow
updated_target row u = record row {
  status = or_else u.status row.status;
  finished_at = or_kept u.finished_at row.finished_at;
  signals_count = or_else u.signals_count row.signals_count;
  anomaly_count = or_else u.anomaly_count row.anomaly_count;
  record_count = or_else u.record_count row.record_count;
  suppressed_count = or_else u.suppressed_count row.suppressed_count;
  error = or_kept u.error row.error;
  request_params = or_kept u.request_params row.request_params;
}

unfoldable pub update_target_status :
    TargetRows → String → String → String → TargetUpdate → Result TargetRows
unfolding Dict.get Dict.put
update_target_status rows tenant_id round_id target_id u = do
  require_tenant tenant_id
  ok (elim (Dict.get rows (tenant_id, round_id, target_id)) [
    | none ↦ rows
    | some row ↦ Dict.put rows (tenant_id, round_id, target_id) (updated_target row u)
  ])

abbrev pub first_row {ℓ} : {A : Type ℓ} → List A → Option A
first_row [] = none
first_row (r ∷ rs) = some r

unfoldable pub latest_target :
    TargetRows → String → String → Option String → Result (Option TargetRow)
unfolding sort_by
latest_target rows tenant_id target_id status =
    let own =
      keep (λ r. str_eq r.tenant_id tenant_id && str_eq r.target_id target_id)
        (map (λ e. e.1) rows) in
    do
      require_tenant tenant_id
      ok (
          first_row
            (sort_by (λ r s. leb s.started_at r.started_at) (only status (λ r. r.status) own)))

unfoldable pub list_targets : TargetRows → String → String → Result (List TargetRow)
unfolding sort_by
list_targets rows tenant_id round_id = do
  require_tenant tenant_id
  ok (
      sort_by (λ r s. text_leb r.target_id s.target_id)
        (keep (λ r. str_eq r.tenant_id tenant_id && str_eq r.round_id round_id)
          (map (λ e. e.1) rows)))
