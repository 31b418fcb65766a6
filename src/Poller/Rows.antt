-- ===== src/Poller/Rows.antt =====
-- The rows of the targets of a round of src/aiops_apm/poller.py under the updates of
-- src/aiops_apm/storage/rounds.py.
use aiops_apm_anomaly_detect.Prelude.{
  ℕ, ◌≡◌, ◌≢◌, refl, subst, ◌∙◌, ◌⊎◌, inl, inr, String, Bool, true, false, Option, none, some,
  arith, Bool-cases, Option-cases, if◌then◌else◌, str_eq, str_eq_iff, str_eq_refl,
}
use aiops_apm_anomaly_detect.Prelude.Dict as Dict
use aiops_apm_anomaly_detect.Prelude.Dict.{text_pair_key, text_triple_key, get-put}
use aiops_apm_anomaly_detect.Errors.{ok}
use aiops_apm_anomaly_detect.Storage.Rounds.{
  TargetRow, TargetRows, TargetUpdate, create_target, update_target_status, updated_target,
}
use aiops_apm_anomaly_detect.Poller.{Collected, collected_update}

abbrev pub row_at : TargetRows → String → String → String → Option TargetRow
row_at rows tenant_id trace_id id = Dict.get rows (tenant_id, trace_id, id)

-- The row of a target is there.
abbrev pub Opened : Option TargetRow → Type 0
Opened none = ⊥
Opened (some row) = Unit

-- The row of a target says how its collection ended: `error` is what its collector raised.
abbrev pub Settled : Option String → Option TargetRow → Type 0
Settled error none = ⊥
Settled error (some row) =
    (((row.status ≡ "ok") × (error ≡ none)) ⊎ ((row.status ≡ "failed") × (error ≢ none)))
    × (row.finished_at ≢ none)

abbrev pub updated_at : TargetUpdate → Option TargetRow → Option TargetRow
updated_at u none = none
updated_at u (some row) = some (updated_target row u)

-- The row that `create_target` writes.
abbrev pub opened_row : String → String → String → ℕ → TargetRow
opened_row tenant_id trace_id id now = record {
  round_id = trace_id;
  tenant_id = tenant_id;
  target_id = id;
  status = "running";
  signals_count = 0;
  anomaly_count = 0;
  record_count = 0;
  suppressed_count = 0;
  error = none;
  request_params = none;
  started_at = now;
  finished_at = none;
}

module _ (tenant_id trace_id : String) (named : str_eq tenant_id "" ≡ false) where
  -- An update of a named tenant returns; it changes the row of its target, where that is there.
  pub update_lem :
      (rows : TargetRows) (id : String) (u : TargetUpdate)
      → (after : TargetRows) × (update_target_status rows tenant_id trace_id id u ≡ ok after)
        × ((j : String)
            → row_at after tenant_id trace_id j ≡ (
                if str_eq id j
                then updated_at u (row_at rows tenant_id trace_id j)
                else row_at rows tenant_id trace_id j))
  unfolding update_target_status
  update_lem rows id u = elim (Option-cases (row_at rows tenant_id trace_id id)) [
    | inl missing ↦ (rows, rw (named, missing) refl, λ j. ground (arith, missing, str_eq_iff id j))
    | inr (row, found) ↦ (
      Dict.put rows (tenant_id, trace_id, id) (updated_target row u),
      rw (named, found) refl,
      λ j.
          let looked =
            get-put rows (tenant_id, trace_id, id) (tenant_id, trace_id, j)
              (updated_target row u) in
          elim (Bool-cases (str_eq id j)) [
            | inl same ↦
                let here : row_at rows tenant_id trace_id j ≡ some row =
                  subst (λ k. row_at rows tenant_id trace_id k ≡ some row)
                    ((str_eq_iff id j).0 same) found in
                rw (same, here)
                  (looked ∙ (rw (str_eq_refl tenant_id, str_eq_refl trace_id, same) refl))
            | inr other ↦ rw other (looked ∙ (ground arith))
          ],
    )
  ]

  pub create_lem :
      (rows : TargetRows) (id : String) (now : ℕ)
      → (after : TargetRows) × (create_target rows tenant_id trace_id id now ≡ ok after)
        × ((j : String)
            → Opened (row_at rows tenant_id trace_id j) ⊎ (id ≡ j)
            → Opened (row_at after tenant_id trace_id j))
  unfolding create_target
  create_lem rows id now =
      let new = opened_row tenant_id trace_id id now in
      let after : TargetRows = Dict.put rows (tenant_id, trace_id, id) new in
      let looked =
        λ (j : String). get-put rows (tenant_id, trace_id, id) (tenant_id, trace_id, j) new in
      (
        after,
        rw named refl,
        λ j h. elim (Bool-cases (str_eq id j)) [
          | inl same ↦
              let here : row_at after tenant_id trace_id j ≡ some new =
                ground (arith, looked j, str_eq_refl tenant_id, str_eq_refl trace_id) in
              rw here tt
          | inr other ↦
              let there : row_at after tenant_id trace_id j ≡ row_at rows tenant_id trace_id j =
                ground (arith, looked j) in
              rw there
                (elim h [ inl opened ↦ opened | inr e ↦ absurd (ground (arith, str_eq_iff id j)) ])
        ],
      )

  -- What an update keeps of the row of a target, whether it is the updated one.
  module _ (P Q : Option TargetRow → Type 0) (u : TargetUpdate) where
    pick :
        ((o : Option TargetRow) → P o → Q o)
        → ((o : Option TargetRow) → P o → Q (updated_at u o))
        → (b : Bool) (o : Option TargetRow) → P o
        → Q (if b then updated_at u o else o)
    pick same new true o h = new o h
    pick same new false o h = same o h

    pub update_keeps :
        ((o : Option TargetRow) → P o → Q o)
        → ((o : Option TargetRow) → P o → Q (updated_at u o))
        → (rows : TargetRows) (id j : String) → P (row_at rows tenant_id trace_id j)
        → Q (row_at (update_lem rows id u).0 tenant_id trace_id j)
    update_keeps same new rows id j h =
        rw ((update_lem rows id u).2 j)
          (pick same new (str_eq id j) (row_at rows tenant_id trace_id j) h)

-- An update that says how the collection ended, and one that says nothing of it.
abbrev pub Settling : Option String → TargetUpdate → Type 0
Settling error u =
    (((u.status ≡ some "ok") × (error ≡ none)) ⊎ ((u.status ≡ some "failed") × (error ≢ none)))
    × (u.finished_at ≢ none)

abbrev pub Neutral : TargetUpdate → Type 0
Neutral u = (u.status ≡ none) × (u.finished_at ≡ none)

pub Opened-updated : (u : TargetUpdate) (o : Option TargetRow) → Opened o → Opened (updated_at u o)
Opened-updated u none h = elim h [ ]
Opened-updated u (some row) h = tt

pub Settling-Settled :
    (error : Option String) (u : TargetUpdate)
    → Settling error u
    → (o : Option TargetRow) → Opened o
    → Settled error (updated_at u o)
Settling-Settled error u (inl (e, n), f) none h = elim h [ ]
Settling-Settled error u (inr (e, n), f) none h = elim h [ ]
Settling-Settled error u (inl (e, n), f) (some row) h = (inl (rw e refl, n), ground arith)
Settling-Settled error u (inr (e, n), f) (some row) h = (inr (rw e refl, n), ground arith)

pub Neutral-Settled :
    (error : Option String) (u : TargetUpdate)
    → Neutral u
    → (o : Option TargetRow) → Settled error o
    → Settled error (updated_at u o)
Neutral-Settled error u n none h = elim h [ ]
Neutral-Settled error u n (some row) h = rw (n.0, n.1) h

pub Settled-Opened : (error : Option String) (o : Option TargetRow) → Settled error o → Opened o
Settled-Opened error none h = elim h [ ]
Settled-Opened error (some row) h = tt

pub collected-Settling :
    (ended : ℕ) (c : Collected) → Settling c.error (collected_update ended c c.error)
collected-Settling ended c = elim c.error as (λ e. Settling e (collected_update ended c e)) [
  | none ↦ (inl (refl, refl), ground arith)
  | some failure ↦ (inr (refl, ground arith), ground arith)
]
