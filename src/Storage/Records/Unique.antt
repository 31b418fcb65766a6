-- ===== src/Storage/Records/Unique.antt =====
-- Lemmas on the open rows of a tenant with one group key in src/aiops_apm/storage/records.py, which
-- the table has a unique index for.
use aiops_apm_anomaly_detect.Prelude.{
  ℕ, ◌≡◌, refl, sym, ap, subst, ◌∙◌, ◌⊎◌, inl, inr, String, true, false, ◌&&◌, Option, none, some,
  List, [], ◌∷◌, arith, Bool-cases, length, is_nonempty, if◌then◌else◌, str_eq, str_eq_iff,
  str_eq_refl,
}
use aiops_apm_anomaly_detect.Prelude.Dict as Dict
use aiops_apm_anomaly_detect.Prelude.Dict.{
  string_key, get-put, DistinctKeys, put-DistinctKeys, get-tail,
}
use aiops_apm_anomaly_detect.Errors.{ok}
use aiops_apm_anomaly_detect.Models.Record.{ProblemRecord, record_group_key}
use aiops_apm_anomaly_detect.Models.Fingerprint.{Hashing}
use aiops_apm_anomaly_detect.Storage.Records.{
  Row, Rows, is_open, matches, found_of, is_better, is_strict_subset, anomaly_keys, superset_loop,
  superset_candidate, find_row, written, append_row, apply_merge, dumped, write_or_append,
}

-- The row is an open one of the tenant.
abbrev pub OpenOf : String → Row → Type 0
OpenOf tenant_id row = (row.base.tenant_id ≡ tenant_id) × (is_open row ≡ true)

-- Record ids stand once, and open rows of one tenant with one key are one row.
pub record Sound (rows : Rows) : Type 0 where
  pub distinct_ids : DistinctKeys rows
  pub one_open :
      (i j : String) (r s : Row)
      → Dict.get rows i ≡ some r
      → Dict.get rows j ≡ some s
      → is_open r ≡ true
      → is_open s ≡ true
      → r.base.tenant_id ≡ s.base.tenant_id
      → r.group_key ≡ s.group_key
      → i ≡ j

module _ (tenant_id : String) where
  matches_lem :
      (key : String) (row : Row)
      → matches tenant_id key row ≡ true
      → OpenOf tenant_id row × (row.group_key ≡ key)
  matches_lem key row m =
      ground (arith, str_eq_iff row.base.tenant_id tenant_id, str_eq_iff row.group_key key)

  find_row-some :
      (rows : Rows) (key id : String) (row : Row)
      → DistinctKeys rows
      → find_row rows tenant_id key ≡ some (id, row)
      → (Dict.get rows id ≡ some row) × (matches tenant_id key row ≡ true)
  unfolding find_row Dict.get
  find_row-some [] key id row d e = absurd (ground arith)
  find_row-some ((i, r) ∷ rows) key id row d e = elim (Bool-cases (matches tenant_id key r)) [
    | inl m ↦
        let here : some (i, r) ≡ some (id, row) = rw m at e in
        let same : (i, r) ≡ (id, row) = cc in
        let same_id : i ≡ id = ap (λ (u : String × Row). u.0) same in
        let same_row : r ≡ row = ap (λ (u : String × Row). u.1) same in
        (
          rw (same_id, str_eq_refl id, same_row) refl,
          subst (λ u. matches tenant_id key u ≡ true) same_row m,
        )
    | inr m ↦
        let (g, t) = find_row-some rows key id row d.1 (rw m at e) in
        (get-tail rows i id r row d.0 g, t)
  ]

  find_row-none :
      (rows : Rows) (key id : String) (row : Row)
      → find_row rows tenant_id key ≡ none
      → Dict.get rows id ≡ some row
      → matches tenant_id key row ≡ false
  unfolding find_row Dict.get
  find_row-none [] key id row e g = absurd (ground arith)
  find_row-none ((i, r) ∷ rows) key id row e g =
      ground (arith, str_eq_iff i id, find_row-none rows key id row)

module _ (h : Hashing) (tenant_id : String) where
  -- A candidate is a row of the store that is open and of the tenant.
  abbrev Good : Rows → Option (String × Row) → Type 0
  Good rows best =
      (id : String) (row : Row)
      → best ≡ some (id, row)
      → (Dict.get rows id ≡ some row) × OpenOf tenant_id row

  superset_loop-Good :
      (rows all : Rows) (new_keys : List String) (best : Option (String × Row × ℕ))
      → DistinctKeys rows
      → ((id : String) (row : Row) → Dict.get rows id ≡ some row → Dict.get all id ≡ some row)
      → Good all (found_of best)
      → Good all (found_of (superset_loop h rows new_keys tenant_id best))
  unfolding superset_loop Dict.get
  superset_loop-Good [] all new_keys best d sub g = g
  superset_loop-Good ((i, r) ∷ rows) all new_keys best d sub g =
      let keys = anomaly_keys h r.base.metric_anomalies r.base.log_anomalies in
      let wins =
        (str_eq r.base.tenant_id tenant_id && is_open r)
        && (is_strict_subset keys new_keys && is_better best (length keys)) in
      superset_loop-Good rows all new_keys (if wins then some (i, r, length keys) else best) d.1
        (λ id row found. sub id row (get-tail rows i id r row d.0 found))
        (elim (Bool-cases wins) [
          | inr w ↦ rw w g
          | inl w ↦ rw w (λ id row e.
              let same : (i, r) ≡ (id, row) = cc in
              subst (λ (u : String × Row). (Dict.get all u.0 ≡ some u.1) × OpenOf tenant_id u.1)
                same
                (
                  sub i r (rw (str_eq_refl i) refl),
                  ground (arith, str_eq_iff r.base.tenant_id tenant_id),
                ))
        ])

  superset_candidate-Good :
      (r : ProblemRecord) (rows : Rows)
      → DistinctKeys rows
      → Good rows (superset_candidate h r rows tenant_id)
  unfolding superset_candidate
  superset_candidate-Good r rows d =
      let new_keys = anomaly_keys h r.metric_anomalies r.log_anomalies in
      elim (Bool-cases (is_nonempty new_keys)) [
        | inr e ↦ rw e (λ id row none_some. absurd (ground arith))
        | inl e ↦ rw e (
            superset_loop-Good rows rows new_keys none d (λ id row found. found)
              (λ id row none_some. absurd (ground arith)))
      ]

  -- No other open row of the tenant has the key.
  abbrev Free : Rows → String → String → Type 0
  Free rows id key =
      (j : String) (s : Row)
      → Dict.get rows j ≡ some s
      → OpenOf tenant_id s
      → s.group_key ≡ key
      → j ≡ id

  put-cases :
      (rows : Rows) (id i : String) (row a : Row)
      → Dict.get (Dict.put rows id row) i ≡ some a
      → ((id ≡ i) × (row ≡ a)) ⊎ (Dict.get rows i ≡ some a)
  put-cases rows id i row a found =
      let found' : (if str_eq id i then some row else Dict.get rows i) ≡ some a =
        sym (get-put rows id i row) ∙ found in
      elim (Bool-cases (str_eq id i)) [
        | inl e ↦ let here : some row ≡ some a = rw e at found' in inl ((str_eq_iff id i).0 e, cc)
        | inr e ↦ inr (rw e at found')
      ]

  put-Sound :
      (rows : Rows) (id : String) (row : Row)
      → Sound rows
      → row.base.tenant_id ≡ tenant_id
      → Free rows id row.group_key
      → Sound (Dict.put rows id row)
  put-Sound rows id row s own free = record {
    distinct_ids = put-DistinctKeys rows id row s.distinct_ids;
    one_open = λ i j a b ga gb oa ob t k. elim (put-cases rows id i row a ga) [
      | inl (ei, ea) ↦ elim (put-cases rows id j row b gb) [
        | inl (ej, eb) ↦ sym ei ∙ ej
        | inr old ↦
            sym ei
            ∙ sym (
                free j b old (sym t ∙ sym (ap (λ (u : Row). u.base.tenant_id) ea) ∙ own, ob)
                  (sym k ∙ sym (ap (λ (u : Row). u.group_key) ea)))
      ]
      | inr old ↦ elim (put-cases rows id j row b gb) [
        | inl (ej, eb) ↦
            free i a old (t ∙ sym (ap (λ (u : Row). u.base.tenant_id) eb) ∙ own, oa)
              (k ∙ sym (ap (λ (u : Row). u.group_key) eb))
            ∙ ej
        | inr old' ↦ s.one_open i j a b old old' oa ob t k
      ]
    ];
  }

  Free-none :
      (rows : Rows) (id key : String) → find_row rows tenant_id key ≡ none → Free rows id key
  Free-none rows id key e j s found own same =
      let no = find_row-none tenant_id rows key j s e found in
      absurd (
        ground (
          arith,
          no,
          own.1,
          str_eq_iff s.base.tenant_id tenant_id,
          own.0,
          str_eq_iff s.group_key key,
          same,
        ))

  written-Sound :
      (candidate equal : Option (String × Row)) (rows : Rows) (r : ProblemRecord)
      → Sound rows
      → r.tenant_id ≡ tenant_id
      → Good rows candidate
      → find_row rows tenant_id (record_group_key h r) ≡ equal
      → (candidate ≡ none) ⊎ (equal ≡ none)
      → Sound (written h candidate equal rows r)
  unfolding written apply_merge append_row
  written-Sound (some (id, row)) equal rows r s own good found clear =
      let (here, mine) = good id row refl in
      put-Sound rows id (apply_merge h row r) s mine.0 (
        Free-none rows id (record_group_key h r)
          (elim clear [ inl e ↦ absurd (ground arith) | inr e ↦ found ∙ e ]))
  written-Sound none (some (id, row)) rows r s own good found clear =
      let (here, m) =
        find_row-some tenant_id rows (record_group_key h r) id row s.distinct_ids found in
      let (mine, key) = matches_lem tenant_id (record_group_key h r) row m in
      put-Sound rows id (append_row row r) s mine.0 (λ j t at of_tenant same.
        s.one_open j id t row at here of_tenant.1 mine.1 (of_tenant.0 ∙ sym mine.0) (same ∙ refl))
  written-Sound none none rows r s own good found clear =
      put-Sound rows r.record_id (dumped h r) s own
        (Free-none rows r.record_id (record_group_key h r) found)

-- For a record of a tenant with a name, `write_or_append` returns. It keeps record ids distinct and
-- leaves at most one open row per tenant and group key, unless it both merges into a row with fewer
-- anomalies and finds another open row with the record's own key.
pub write_or_append-Sound :
    (h : Hashing) (rows : Rows) (tenant_id : String) (r : ProblemRecord)
    → str_eq tenant_id "" ≡ false
    → r.tenant_id ≡ tenant_id
    → Sound rows
    → (superset_candidate h r rows tenant_id ≡ none)
      ⊎ (find_row rows tenant_id (record_group_key h r) ≡ none)
    → (rows' : Rows) × (write_or_append h rows tenant_id r ≡ ok rows') × Sound rows'
unfolding write_or_append
write_or_append-Sound h rows tenant_id r t own s clear =
    let candidate = superset_candidate h r rows tenant_id in
    let equal = find_row rows tenant_id (record_group_key h r) in
    (
      written h candidate equal rows r,
      rw t refl,
      written-Sound h tenant_id candidate equal rows r s own
          (superset_candidate-Good h tenant_id r rows s.distinct_ids) refl clear,
    )
