-- ===== src/Storage/Dynamic/Laws.antt =====
-- Lemmas on the ids and the rows of src/aiops_apm/storage/dynamic_config.py.
use aiops_apm_anomaly_detect.Prelude.{
  ℕ, ◌+◌, ◌<◌, ◌≡◌, refl, sym, ap, ◌∙◌, inl, inr, String, true, false, not, Option, some, List, [],
  ◌∷◌, ◌++◌, arith, keep, ◌==◌, Bool-cases, if◌then◌else◌, str_eq, str_eq_refl, str_eq_iff,
}
use aiops_apm_anomaly_detect.Prelude.Dict as Dict
use aiops_apm_anomaly_detect.Prelude.Dict.{string_key, get-put}
use aiops_apm_anomaly_detect.Errors.{Result, ok}
use aiops_apm_anomaly_detect.Storage.Dynamic.{
  WindowRow, Windows, rows_of, max_id, row_with_id, create_maintenance_window,
  delete_maintenance_window,
}

module _ {ℓ} {A : Type ℓ} (id : A → ℕ) where
  -- A number above every id meets no row but the new one.
  keep_new :
      (rows : List A) (row : A)
      → max_id id rows < id row
      → keep (λ r. not (id r == id row)) (rows ++ row ∷ []) ≡ rows
  unfolding max_id
  keep_new [] row h = let same : (id row == id row) ≡ true = ground arith in rw same refl
  keep_new (r ∷ rows) row h =
      let ih : keep (λ s. not (id s == id row)) (rows ++ row ∷ []) ≡ rows =
        keep_new rows row (ground arith) in
      let other : (id r == id row) ≡ false = ground arith in rw (other, ih) refl

  row_with_id-append :
      (rows : List A) (row : A)
      → max_id id rows < id row
      → row_with_id id (rows ++ row ∷ []) (id row) ≡ some row
  unfolding max_id row_with_id
  row_with_id-append [] row h = ground arith
  row_with_id-append (r ∷ rows) row h =
      let other : (id r == id row) ≡ false = ground arith in
      rw other (row_with_id-append rows row (ground arith))

abbrev window_id : WindowRow → ℕ
window_id r = r.id

rows_of-put {ℓ} :
    {A : Type ℓ} (store : List (String × List A)) (tenant other : String) (rows : List A)
    → rows_of (Dict.put store tenant rows) other
      ≡ (if str_eq tenant other then rows else rows_of store other)
rows_of-put store tenant other rows = ground (arith, get-put store tenant other rows)

-- A maintenance window that was created has an id that no window of the tenant had, it is found
-- under that id, and a delete of the id returns and leaves every tenant with the windows that it
-- had before.
pub create-delete_window :
    (store : Windows) (tenant_id service : String) (start_at end_at : ℕ) (reason : Option String)
    (row : WindowRow) (after : Windows)
    → create_maintenance_window store tenant_id service start_at end_at reason ≡ ok (row, after)
    → (max_id window_id (rows_of store tenant_id) < row.id)
      × (row_with_id window_id (rows_of after tenant_id) row.id ≡ some row)
      × ((last : Windows) × (delete_maintenance_window after tenant_id row.id ≡ ok last)
          × ((other : String) → rows_of last other ≡ rows_of store other))
unfolding create_maintenance_window delete_maintenance_window
create-delete_window store tenant_id service start_at end_at reason row after e =
    elim (Bool-cases (str_eq tenant_id "")) [
      | inl unnamed ↦ absurd (ground arith)
      | inr named ↦
          let rows = rows_of store tenant_id in
          let made : WindowRow = record {
            id = max_id window_id rows + 1;
            tenant_id = tenant_id;
            service = service;
            start_at = start_at;
            end_at = end_at;
            reason = reason;
          } in
          let returned : ◌≡◌ {A = Result (WindowRow × Windows)}
              (ok (made, Dict.put store tenant_id (rows ++ made ∷ []))) (ok (row, after)) =
            rw named at e in
          let pair : (made, Dict.put store tenant_id (rows ++ made ∷ [])) ≡ (row, after) = cc in
          let same_row : made ≡ row = ap (λ (u : WindowRow × Windows). u.0) pair in
          let same_store : Dict.put store tenant_id (rows ++ made ∷ []) ≡ after =
            ap (λ (u : WindowRow × Windows). u.1) pair in
          let fresh : max_id window_id rows < made.id = omega arith in
          let stored : rows_of after tenant_id ≡ rows ++ made ∷ [] =
            ap (λ (s : Windows). rows_of s tenant_id) (sym same_store)
            ∙ (rows_of-put store tenant_id tenant_id (rows ++ made ∷ [])
                ∙ (rw (str_eq_refl tenant_id) refl)) in
          let without : keep (λ r. not (r.id == made.id)) (rows_of after tenant_id) ≡ rows =
            rw stored (keep_new window_id rows made fresh) in
          rw (← same_row) (
            fresh,
            rw stored (row_with_id-append window_id rows made fresh),
            (
              Dict.put after tenant_id rows,
              rw (named, without) refl,
              λ other. ground (
                arith,
                rows_of-put after tenant_id other rows,
                rows_of-put store tenant_id other (rows ++ made ∷ []),
                same_store,
                str_eq_iff tenant_id other,
              ),
            ),
          )
    ]
