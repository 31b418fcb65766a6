-- ===== src/Tests/Settings.antt =====
-- Concrete inputs for the theorems on the configuration stores of src/aiops_apm/storage.
use Prim.Native.String as Text
use aiops_apm_anomaly_detect.Prelude.{
  ℕ, zero, suc, ◌+◌, ◌<◌, ◌≡◌, ◌≢◌, refl, ap, String, Bool, ◌&&◌, true, false, none, some, [], ◌∷◌,
  ◌++◌, if◌then◌else◌, str_eq,
}
use aiops_apm_anomaly_detect.Prelude.Dict as Dict
use aiops_apm_anomaly_detect.Prelude.Dict.{string_key, text_pair_key}
use aiops_apm_anomaly_detect.Prelude.Int.{pos}
use aiops_apm_anomaly_detect.Prelude.Split.{split_at}
use aiops_apm_anomaly_detect.Prelude.Text.{concat}
use aiops_apm_anomaly_detect.Errors.{ok, value_error}
use aiops_apm_anomaly_detect.Models.Float.{finite}
use aiops_apm_anomaly_detect.Models.Value.{Value, Params}
use aiops_apm_anomaly_detect.Storage.Dynamic.{
  WindowRow, Windows, rows_of, max_id, row_with_id, create_maintenance_window,
  delete_maintenance_window,
}
use aiops_apm_anomaly_detect.Storage.Dynamic.Laws.{create-delete_window}
use aiops_apm_anomaly_detect.Storage.Dynamic.Fpr.{Arithmetic}
use aiops_apm_anomaly_detect.Storage.Dynamic.Update.{
  changes_of, target_argument, target_columns, pg_update_window, pg_update_target,
  pg_update_binding,
}
use aiops_apm_anomaly_detect.Storage.Targets as Targets
use aiops_apm_anomaly_detect.Storage.Targets.{
  Target, Stored, TargetStore, NewTarget, Numerals, next_target_id, max_suffix, find_target,
  write_first, mark_deleted,
}
use aiops_apm_anomaly_detect.Storage.Targets.Fresh.{Readable, create-fresh}
use aiops_apm_anomaly_detect.Storage.Domains.{
  DomainRow, load, first_version, upsert, upsert_rows, seed, seed_rows, loader_load,
}
use aiops_apm_anomaly_detect.Storage.Domains.Versions.{
  row_of, version_of, rule_row, upsert-version, loader_load-fallback,
}

abbrev window : WindowRow
window = record { id = 1; tenant_id = "t"; service = "a"; start_at = 5; end_at = 9; reason = none }

create-delete_window_example :
    (max_id (λ (r : WindowRow). r.id) [] < window.id)
    × (row_with_id (λ (r : WindowRow). r.id) (rows_of (("t", window ∷ []) ∷ []) "t") window.id
        ≡ some window)
    × ((last : Windows) × (delete_maintenance_window (("t", window ∷ []) ∷ []) "t" window.id
          ≡ ok last)
        × ((other : String) → rows_of last other ≡ rows_of [] other))
unfolding create_maintenance_window Dict.get Dict.put max_id
create-delete_window_example =
    create-delete_window [] "t" "a" 5 9 none window (("t", window ∷ []) ∷ []) refl

-- A stand-in for the arithmetic of floats, which forgets its arguments.
abbrev pub arithmetic : Arithmetic
arithmetic = record {
  plus = λ x y. finite (pos 0);
  times = λ x y. finite (pos 0);
  divided = λ x y. finite (pos 0);
  round4 = λ x. x;
}

abbrev patch : Params
patch = ("service", Value.str "b") ∷ []

abbrev target_patch : Params
target_patch = ("enabled", Value.bool false) ∷ []

pg_update_binding_example :
    (Dict.get (pg_update_window (Value.str "t") Value.null patch) "service" ≡ some (Value.str "t"))
    × (pg_update_target (λ v. v) (Value.str "t") Value.null target_patch
        ≡ some (
            changes_of (target_argument (λ v. v)) target_columns target_patch
            ++ ("tenant_id", Value.str "t") ∷ ("target_id", Value.null) ∷ []))
unfolding changes_of Dict.get
pg_update_binding_example =
    pg_update_binding (λ v. v) (Value.str "t") Value.null patch target_patch "service"
      (Value.str "b") [] refl refl

-- Numbers as strokes, which have no dash.
unfoldable strokes : ℕ → String
strokes zero = Text.[]
strokes (suc n) = Text.◌∷◌ "|" (strokes n)

unfoldable count_strokes : String → ℕ
count_strokes Text.[] = 0
count_strokes (Text.◌∷◌ c s) = suc (count_strokes s)

split_at-strokes : (n : ℕ) → split_at 45 (strokes n) ≡ strokes n ∷ []
unfolding split_at strokes
split_at-strokes zero = refl
split_at-strokes (suc n) = rw (split_at-strokes n) refl

count_strokes-strokes : (n : ℕ) → count_strokes (strokes n) ≡ n
unfolding count_strokes strokes
count_strokes-strokes zero = refl
count_strokes-strokes (suc n) = ap suc (count_strokes-strokes n)

abbrev numerals : Numerals
numerals = record { parse_int = λ s. some (count_strokes s); show_padded = strokes }

numerals-Readable : Readable numerals
numerals-Readable = record {
  undashed = split_at-strokes;
  read_back = λ k. ap some (count_strokes-strokes k);
}

abbrev new_target : NewTarget
new_target = record {
  service = "a";
  signal_type = "log";
  source_type = "http";
  domain = none;
  source_config = [];
  schedule = none;
  enabled = none;
}

abbrev target : Bool → Target
target gone = record {
  target_id = "MT-|";
  service = "a";
  signal_type = "log";
  source_type = "http";
  domain = "application";
  source_config = [];
  schedule = [];
  enabled = true;
  created_at = 3;
  deleted = gone;
}

-- The store with the first target of the tenant.
abbrev one_target : Bool → TargetStore
one_target gone = record {
  rows = record { id = 1; tenant_id = "t"; public = target gone } ∷ [];
  next_id = 2;
}

create-fresh_example :
    (Targets.get (record { rows = []; next_id = 1 }) "t" "MT-|" ≡ ok none)
    × (Targets.get (one_target false) "t" "MT-|" ≡ ok (some (target false)))
    × (Targets.get (one_target true) "t" "MT-|" ≢ ok none)
unfolding Targets.create Targets.delete next_target_id max_suffix write_first concat strokes
create-fresh_example =
    create-fresh numerals numerals-Readable [] (record { rows = []; next_id = 1 }) 3 "t" new_target
      (target false) (one_target false) "t" "MT-|" (one_target true) refl refl

abbrev rule : ℕ → DomainRow
rule version = record (first_version "t" "d" []) { version = version }

-- The rule before, disabled, and after it was written with a configuration.
abbrev disabled : DomainRow
disabled = record (rule 1) { enabled = false }

abbrev settings : Params
settings = ("window", Value.null) ∷ []

abbrev enabled_rule : DomainRow
enabled_rule = rule_row "t" "d" settings 2

upsert-version_example :
    (2 ≡ version_of (row_of (disabled ∷ []) "t" "d") + 1)
    × (row_of (enabled_rule ∷ []) "t" "d" ≡ some (rule_row "t" "d" settings 2))
    × ((t d : String)
        → row_of (enabled_rule ∷ []) t d ≡ (
            if str_eq "t" t && str_eq "d" d
            then some (rule_row "t" "d" settings 2)
            else row_of (disabled ∷ []) t d))
unfolding upsert upsert_rows seed seed_rows
upsert-version_example =
    upsert-version (disabled ∷ []) "t" "d" settings 2 (enabled_rule ∷ []) "t"
      (record { id = "d"; enabled = none; config = [] } ∷ []) (enabled_rule ∷ []) refl refl

loader_load-fallback_example :
    loader_load
      (record { rows = rule 1 ∷ []; cache = some (rule 1 ∷ []) })
      []
      "other"
      (some (value_error "unreachable"))
    ≡ (ok (rule 1 ∷ []), record { rows = rule 1 ∷ []; cache = some (rule 1 ∷ []) })
unfolding loader_load load
loader_load-fallback_example =
    loader_load-fallback (record { rows = rule 1 ∷ []; cache = none }) [] "t" "other"
      (value_error "unreachable") (rule 1 ∷ [])
      (record { rows = rule 1 ∷ []; cache = some (rule 1 ∷ []) }) refl
