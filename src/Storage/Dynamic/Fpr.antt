-- ===== src/Storage/Dynamic/Fpr.antt =====
-- src/aiops_apm/storage/dynamic_config.py, write_fpr: the rate of false positives of a group key,
-- in memory and as the statement of the PostgreSQL store.
use aiops_apm_anomaly_detect.Prelude.{
  ℕ, ◌+◌, ◌≤◌, ◌≡◌, refl, ◌&&◌, str_eq_iff, String, Bool, true, false, Option, none, some, List, [],
  arith, or_else, if◌then◌else◌, str_eq,
}
use aiops_apm_anomaly_detect.Prelude.Dict as Dict
use aiops_apm_anomaly_detect.Prelude.Dict.{string_key, text_pair_key, get-put}
use aiops_apm_anomaly_detect.Errors.{Result, ok, ◌>>◌}
use aiops_apm_anomaly_detect.Models.Float.{Float, from_int}
use aiops_apm_anomaly_detect.Storage.DetectionState.{require_tenant}

pub record FprRow : Type 0 where
  pub fpr : Float
  pub total : ℕ

abbrev pub FprTable : Type 0
FprTable = List (String × List (String × FprRow))

abbrev pub fpr_of : FprTable → String → List (String × FprRow)
fpr_of store tenant_id = or_else (Dict.get store tenant_id) []

abbrev pub total_of : Option FprRow → ℕ
total_of none = 0
total_of (some row) = row.total

abbrev pub rate_of : Option FprRow → Float
unfolding from_int
rate_of none = from_int 0
rate_of (some row) = row.fpr

unfoldable pub load_fpr : FprTable → String → Result (List (String × FprRow))
unfolding Dict.get
load_fpr store tenant_id = do require_tenant tenant_id; ok (fpr_of store tenant_id)

-- The arithmetic of floats; `round4 x` is `round(x, 4)`.
pub record Arithmetic : Type 0 where
  pub plus : Float → Float → Float
  pub times : Float → Float → Float
  pub divided : Float → Float → Float
  pub round4 : Float → Float

unfoldable pub write_fpr : Arithmetic → FprTable → String → String → Bool → Result FprTable
unfolding Dict.get Dict.put from_int
write_fpr a store tenant_id group_key false_positive =
    let table = fpr_of store tenant_id in
    let row = Dict.get table group_key in
    let old_total = total_of row in
    let old_fpr = rate_of row in
    let new_total = old_total + 1 in
    let inc = if false_positive then 1 else 0 in
    let new_fpr =
      a.divided (a.plus (a.times old_fpr (from_int old_total)) (from_int inc))
        (from_int new_total) in
    do
      require_tenant tenant_id
      ok (
          Dict.put store tenant_id
            (Dict.put table group_key (record { fpr = a.round4 new_fpr; total = new_total })))

-- A row of `fpr_table`; `fpr` is the quotient of the two counts that the statement computes.
pub record FprCounts : Type 0 where
  pub false_positive_cnt : ℕ
  pub total_cnt : ℕ

abbrev pub fp_inc : Bool → ℕ
fp_inc true = 1
fp_inc false = 0

abbrev FprRows : Type 0
FprRows = List ((String × String) × FprCounts)

abbrev pub counted : Option FprCounts → Bool → FprCounts
counted none false_positive = record { false_positive_cnt = fp_inc false_positive; total_cnt = 1 }
counted (some row) false_positive = record {
  false_positive_cnt = row.false_positive_cnt + fp_inc false_positive;
  total_cnt = row.total_cnt + 1;
}

-- INSERT ... ON CONFLICT DO UPDATE: the names with the table refer to the row before the update.
unfoldable pub pg_write_fpr :
    List ((String × String) × FprCounts)
    → String
    → String
    → Bool
    → Result (List ((String × String) × FprCounts))
unfolding Dict.get Dict.put
pg_write_fpr rows tenant_id group_key false_positive = do
  require_tenant tenant_id
  ok (
      Dict.put rows (tenant_id, group_key)
        (counted (Dict.get rows (tenant_id, group_key)) false_positive))

abbrev pub total_in : FprTable → String → String → ℕ
total_in store tenant_id group_key = total_of (Dict.get (fpr_of store tenant_id) group_key)

abbrev pub counts_of : Option FprCounts → FprCounts
counts_of none = record { false_positive_cnt = 0; total_cnt = 0 }
counts_of (some row) = row

abbrev pub counts_in : List ((String × String) × FprCounts) → String → String → FprCounts
counts_in rows tenant_id group_key = counts_of (Dict.get rows (tenant_id, group_key))

-- The two stores hold as many verdicts for a key, and no more false positives than verdicts.
abbrev pub Agree : FprTable → List ((String × String) × FprCounts) → Type 0
Agree store rows =
    (tenant_id group_key : String)
    → (total_in store tenant_id group_key ≡ (counts_in rows tenant_id group_key).total_cnt)
      × ((counts_in rows tenant_id group_key).false_positive_cnt
          ≤ (counts_in rows tenant_id group_key).total_cnt)

abbrev pub tick : Bool → ℕ
tick true = 1
tick false = 0

if-tick : (b : Bool) → (if b then 1 else 0) ≡ tick b
if-tick true = refl
if-tick false = refl

abbrev pub rate_in : FprTable → String → String → Float
unfolding from_int
rate_in store tenant_id group_key = rate_of (Dict.get (fpr_of store tenant_id) group_key)

-- The mean of `n` verdicts with the mean `rate`, of which a false positive counts 1 and another 0, and
-- one verdict more.
abbrev pub mean_with : Arithmetic → Float → ℕ → Bool → Float
unfolding from_int
mean_with a rate n false_positive = a.round4 (
    a.divided (a.plus (a.times rate (from_int n)) (from_int (tick false_positive)))
      (from_int (n + 1)))

-- A table with one verdict more for the key: its total and its rate, and those of all other keys.
abbrev pub Verdict : Arithmetic → FprTable → FprTable → String → String → Bool → Type 0
Verdict a store after tenant_id group_key false_positive =
    (t k : String)
    → let same = str_eq tenant_id t && str_eq group_key k in
      (total_in after t k ≡ total_in store t k + tick same)
      × (rate_in after t k ≡ (
          if same
          then mean_with a (rate_in store t k) (total_in store t k) false_positive
          else rate_in store t k))

total_in-put :
    (store : FprTable) (t k u j : String) (row : FprRow)
    → total_in (Dict.put store t (Dict.put (fpr_of store t) k row)) u j
      ≡ (if str_eq t u && str_eq k j then row.total else total_in store u j)
total_in-put store t k u j row = ground (
  arith,
  get-put store t u (Dict.put (fpr_of store t) k row),
  get-put (fpr_of store t) k j row,
  str_eq_iff t u,
)

rate_in-put :
    (store : FprTable) (t k u j : String) (row : FprRow)
    → rate_in (Dict.put store t (Dict.put (fpr_of store t) k row)) u j
      ≡ (if str_eq t u && str_eq k j then row.fpr else rate_in store u j)
unfolding rate_in
rate_in-put store t k u j row = ground (
  arith,
  get-put store t u (Dict.put (fpr_of store t) k row),
  get-put (fpr_of store t) k j row,
  str_eq_iff t u,
)

-- The table in memory takes a verdict of a named tenant.
pub write_fpr-Verdict :
    (a : Arithmetic) (store : FprTable) (tenant_id group_key : String) (false_positive : Bool)
    → str_eq tenant_id "" ≡ false
    → (after : FprTable) × (write_fpr a store tenant_id group_key false_positive ≡ ok after)
      × Verdict a store after tenant_id group_key false_positive
unfolding write_fpr mean_with
write_fpr-Verdict a store tenant_id group_key false_positive named =
    let row : FprRow = record {
      fpr =
          mean_with a (rate_in store tenant_id group_key) (total_in store tenant_id group_key)
            false_positive;
      total = total_in store tenant_id group_key + 1;
    } in
    (
      Dict.put store tenant_id (Dict.put (fpr_of store tenant_id) group_key row),
      rw (named, if-tick false_positive) refl,
      λ t k. (
        ground (
          arith,
          total_in-put store tenant_id group_key t k row,
          str_eq_iff tenant_id t,
          str_eq_iff group_key k,
        ),
        ground (
          arith,
          rate_in-put store tenant_id group_key t k row,
          str_eq_iff tenant_id t,
          str_eq_iff group_key k,
        ),
      ),
    )
