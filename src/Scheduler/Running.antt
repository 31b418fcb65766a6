-- ===== src/Scheduler/Running.antt =====
-- The rows of a target of src/aiops_apm/storage/rounds.py that are running, and what `latest_target`
-- finds of them.
use aiops_apm_anomaly_detect.Prelude.{
  ℕ, suc, ◌+◌, ◌≡◌, refl, sym, ap, subst, ◌∙◌, inl, inr, String, Bool, true, false, ◌&&◌, Option,
  none, some, List, [], ◌∷◌, map, arith, All, In, keep-In, Bool-cases, keep, length, leb,
  if◌then◌else◌, str_eq, str_eq_iff,
}
use aiops_apm_anomaly_detect.Prelude.Dict as Dict
use aiops_apm_anomaly_detect.Prelude.Dict.{
  text_pair_key, text_triple_key, get-put, DistinctKeys, put-DistinctKeys, get-tail,
}
use aiops_apm_anomaly_detect.Prelude.Sort.{insert_by, sort_by}
use aiops_apm_anomaly_detect.Errors.{ok}
use aiops_apm_anomaly_detect.Storage.Rounds.{
  TargetKey, TargetRow, TargetRows, latest_target, first_row,
}

In-insert_by {ℓ} :
    {A : Type ℓ} (le : A → A → Bool) (a x : A) (xs : List A)
    → In a (insert_by le x xs)
    → In a (x ∷ xs)
unfolding insert_by
In-insert_by le a x [] i = i
In-insert_by le a x (y ∷ ys) i = elim (Bool-cases (le x y)) [
  | inl e ↦ rw e at i
  | inr e ↦
      let j : In a (y ∷ insert_by le x ys) = rw e at i in
      elim j [
        | inl here ↦ inr (inl here)
        | inr later ↦ elim (In-insert_by le a x ys later) [
          | inl here ↦ inl here
          | inr there ↦ inr (inr there)
        ]
      ]
]

In-sort_by {ℓ} :
    {A : Type ℓ} (le : A → A → Bool) (a : A) (xs : List A) → In a (sort_by le xs) → In a xs
unfolding sort_by
In-sort_by le a [] i = i
In-sort_by le a (x ∷ xs) i = elim (In-insert_by le a x (sort_by le xs) i) [
  | inl here ↦ inl here
  | inr there ↦ inr (In-sort_by le a xs there)
]

length-insert_by {ℓ} :
    {A : Type ℓ} (le : A → A → Bool) (x : A) (xs : List A)
    → length (insert_by le x xs) ≡ suc (length xs)
unfolding insert_by
length-insert_by le x [] = refl
length-insert_by le x (y ∷ ys) = ground (arith, length-insert_by le x ys)

length-sort_by {ℓ} :
    {A : Type ℓ} (le : A → A → Bool) (xs : List A) → length (sort_by le xs) ≡ length xs
unfolding sort_by
length-sort_by le [] = refl
length-sort_by le (x ∷ xs) = length-insert_by le x (sort_by le xs) ∙ ap suc (length-sort_by le xs)

-- The key of an entry is the key of its row.
abbrev pub OwnKey : TargetKey × TargetRow → Type 0
OwnKey e = e.0 ≡ (e.1.tenant_id, e.1.round_id, e.1.target_id)

abbrev pub KeyedTargets : TargetRows → Type 0
KeyedTargets rows = DistinctKeys rows × All OwnKey rows

get-In :
    (rows : TargetRows) (row : TargetRow)
    → KeyedTargets rows
    → In row (map (λ e. e.1) rows)
    → Dict.get rows (row.tenant_id, row.round_id, row.target_id) ≡ some row
unfolding Dict.get
get-In [] row k i = elim i [ ]
get-In ((key, r) ∷ rows) row k (inl e) =
    let own : key ≡ (row.tenant_id, row.round_id, row.target_id) =
      k.1.0 ∙ ap (λ (u : TargetRow). (u.tenant_id, u.round_id, u.target_id)) (sym e) in
    ground (arith, text_triple_key.beq_iff key (row.tenant_id, row.round_id, row.target_id))
get-In ((key, r) ∷ rows) row k (inr i) =
    get-tail rows key (row.tenant_id, row.round_id, row.target_id) r row k.0.0
      (get-In rows row (k.0.1, k.1.1) i)

pub put-OwnKey :
    (rows : TargetRows) (key : TargetKey) (row : TargetRow)
    → key ≡ (row.tenant_id, row.round_id, row.target_id)
    → All OwnKey rows
    → All OwnKey (Dict.put rows key row)
unfolding Dict.put
put-OwnKey [] key row e h = (e, tt)
put-OwnKey ((j, r) ∷ rows) key row e h = elim (Bool-cases (text_triple_key.beq j key)) [
  | inl same ↦ rw same (((text_triple_key.beq_iff j key).0 same) ∙ e, h.1)
  | inr other ↦ rw other (h.0, put-OwnKey rows key row e h.1)
]

module _ (tenant_id target_id : String) where
  abbrev pub is_running : TargetRow → Bool
  is_running r =
      (str_eq r.tenant_id tenant_id && str_eq r.target_id target_id) && str_eq r.status "running"

  -- The rows of the target that are running.
  unfoldable pub running : TargetRows → ℕ
  running [] = 0
  running ((key, r) ∷ rows) = let rest = running rows in if is_running r then suc rest else rest

  pub running-put :
      (rows : TargetRows) (key : TargetKey) (old new : TargetRow)
      → Dict.get rows key ≡ some old
      → is_running old ≡ true
      → is_running new ≡ false
      → running (Dict.put rows key new) + 1 ≡ running rows
  unfolding running Dict.get Dict.put
  running-put [] key old new found was now_not = absurd (ground arith)
  running-put ((j, r) ∷ rows) key old new found was now_not =
      elim (Bool-cases (text_triple_key.beq j key)) [
        | inl same ↦
            let here : some r ≡ some old = rw same at found in
            let same_row : r ≡ old = cc in
            let counted : is_running r ≡ true = rw same_row was in
            rw (same, counted, now_not) (omega arith)
        | inr other ↦
            let ih = running-put rows key old new (rw other at found) was now_not in
            rw other (ground arith)
      ]

  -- What `latest_target` sorts.
  abbrev candidates : TargetRows → List TargetRow
  candidates rows =
      keep (λ r. str_eq r.status "running")
        (keep (λ r. str_eq r.tenant_id tenant_id && str_eq r.target_id target_id)
          (map (λ e. e.1) rows))

  length-candidates : (rows : TargetRows) → length (candidates rows) ≡ running rows
  unfolding running
  length-candidates [] = refl
  length-candidates ((key, r) ∷ rows) =
      elim (Bool-cases (str_eq r.tenant_id tenant_id && str_eq r.target_id target_id)) [
        | inl mine ↦ elim (Bool-cases (str_eq r.status "running")) [
          | inl runs ↦ rw (mine, runs) (ap suc (length-candidates rows))
          | inr ended ↦ rw (mine, ended) (length-candidates rows)
        ]
        | inr other ↦ rw other (length-candidates rows)
      ]

  -- The latest row is one of the running ones, and there is none when none runs.
  abbrev pub Latest : TargetRows → Option TargetRow → Type 0
  Latest rows none = running rows ≡ 0
  Latest rows (some r) =
      (Dict.get rows (tenant_id, r.round_id, target_id) ≡ some r) × (is_running r ≡ true)

  first-Latest :
      (rows : TargetRows) (sorted : List TargetRow)
      → KeyedTargets rows
      → length sorted ≡ running rows
      → ((r : TargetRow) → In r sorted → In r (candidates rows))
      → Latest rows (first_row sorted)
  first-Latest rows [] k n from = sym n
  first-Latest rows (r ∷ sorted) k n from =
      let (mine, runs) =
        keep-In (λ (r : TargetRow). str_eq r.status "running")
          (keep (λ (r : TargetRow). str_eq r.tenant_id tenant_id && str_eq r.target_id target_id)
            (map (λ e. e.1) rows))
          r (from r (inl refl)) in
      let (there, owned) =
        keep-In (λ (r : TargetRow). str_eq r.tenant_id tenant_id && str_eq r.target_id target_id)
          (map (λ e. e.1) rows) r mine in
      let same_tenant : r.tenant_id ≡ tenant_id =
        ground (arith, str_eq_iff r.tenant_id tenant_id) in
      let same_target : r.target_id ≡ target_id =
        ground (arith, str_eq_iff r.target_id target_id) in
      (
        subst (λ (i : String). Dict.get rows (tenant_id, r.round_id, i) ≡ some r) same_target
            (subst (λ (t : String). Dict.get rows (t, r.round_id, r.target_id) ≡ some r) same_tenant
              (get-In rows r k there)),
        ground arith,
      )

  pub latest_target_lem :
      (rows : TargetRows)
      → KeyedTargets rows
      → str_eq tenant_id "" ≡ false
      → (found : Option TargetRow) × (latest_target rows tenant_id target_id (some "running")
          ≡ ok found)
        × Latest rows found
  unfolding latest_target
  latest_target_lem rows k named =
      let le = λ (r s : TargetRow). leb s.started_at r.started_at in
      (
        first_row (sort_by le (candidates rows)),
        rw named refl,
        first-Latest rows (sort_by le (candidates rows)) k
            (length-sort_by le (candidates rows) ∙ length-candidates rows)
            (λ r i. In-sort_by le r (candidates rows) i),
      )
