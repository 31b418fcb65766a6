-- ===== src/Storage/Targets/Fresh.antt =====
-- Lemmas on the ids of targets of src/aiops_apm/storage/monitor_targets.py.
use aiops_apm_anomaly_detect.Prelude.{
  ℕ, ◌+◌, ◌≤◌, ◌<◌, ◌≡◌, refl, ap, ◌∙◌, inl, inr, String, ◌&&◌, none, some, List, [], ◌∷◌, ◌++◌,
  ◌≢◌, arith, ltb, Bool-cases, if◌then◌else◌, str_eq, str_eq_iff, str_eq_refl,
}
use Prim.Native.String as Text
use Prim.Native.String.append.{nil, cons}
use text.Mathlib.TextLemmas.{append-nil}
use aiops_apm_anomaly_detect.Prelude.Split.{split_at}
use aiops_apm_anomaly_detect.Prelude.Text.{concat}
use aiops_apm_anomaly_detect.Errors.{ok}
use aiops_apm_anomaly_detect.Models.Value.{Params}
use aiops_apm_anomaly_detect.Storage.Targets.{
  Target, Stored, TargetStore, NewTarget, Numerals, parse_suffix, max_suffix, next_target_id,
  create, find_target, is_target, get, delete, write_first, mark_deleted,
}

-- The text of a number has no dash, and is read back.
pub record Readable (n : Numerals) : Type 0 where
  pub undashed : (k : ℕ) → split_at 45 (n.show_padded k) ≡ n.show_padded k ∷ []
  pub read_back : (k : ℕ) → n.parse_int (n.show_padded k) ≡ some k

module _ (n : Numerals) (readable : Readable n) where
  parse_suffix_lem : (k : ℕ) → parse_suffix n (concat ("MT-" ∷ n.show_padded k ∷ [])) ≡ k
  unfolding parse_suffix split_at concat
  parse_suffix_lem k =
      let text : concat ("MT-" ∷ n.show_padded k ∷ []) ≡ Text.◌++◌ "MT-" (n.show_padded k) =
        ap (Text.◌++◌ "MT-") (append-nil (n.show_padded k)) in
      let number = n.show_padded k in
      let spelled : Text.◌++◌ "MT-" number ≡ Text.◌∷◌ "M" (Text.◌∷◌ "T" (Text.◌∷◌ "-" number)) =
        cons "M" "T-" number
        ∙ ap (Text.◌∷◌ "M") (
            cons "T" "-" number
            ∙ ap (Text.◌∷◌ "T") (cons "-" "" number ∙ ap (Text.◌∷◌ "-") (nil number))) in
      rw (text, spelled) (rw (readable.undashed k) (rw (readable.read_back k) refl))

  max_suffix_le :
      (rows : List Stored) (tenant_id : String) (m : ℕ) → m ≤ max_suffix n rows tenant_id m
  unfolding max_suffix
  max_suffix_le [] tenant_id m = omega arith
  max_suffix_le (r ∷ rows) tenant_id m =
      let here = parse_suffix n r.public.target_id in
      let next : ℕ = if str_eq r.tenant_id tenant_id && ltb m here then here else m in
      ground (arith, max_suffix_le rows tenant_id next)

  -- No row of the tenant has the text of a greater number.
  find_fresh :
      (rows : List Stored) (tenant_id : String) (m k : ℕ)
      → max_suffix n rows tenant_id m < k
      → find_target rows tenant_id (concat ("MT-" ∷ n.show_padded k ∷ [])) ≡ none
  unfolding max_suffix find_target
  find_fresh [] tenant_id m k h = refl
  find_fresh (r ∷ rows) tenant_id m k h =
      let fresh_id = concat ("MT-" ∷ n.show_padded k ∷ []) in
      let here = parse_suffix n r.public.target_id in
      let next : ℕ = if str_eq r.tenant_id tenant_id && ltb m here then here else m in
      let later : find_target rows tenant_id fresh_id ≡ none = find_fresh rows tenant_id next k h in
      elim (Bool-cases (is_target tenant_id fresh_id r)) [
        | inr other ↦ rw other later
        | inl same ↦
            let same_id : r.public.target_id ≡ fresh_id =
              ground (arith, str_eq_iff r.public.target_id fresh_id) in
            let number : here ≡ k = ap (parse_suffix n) same_id ∙ parse_suffix_lem k in
            absurd (ground (arith, max_suffix_le rows tenant_id next))
      ]

find_target-append :
    (rows : List Stored) (last : Stored)
    → find_target rows last.tenant_id last.public.target_id ≡ none
    → find_target (rows ++ last ∷ []) last.tenant_id last.public.target_id ≡ some last.public
unfolding find_target
find_target-append [] last h =
    rw (str_eq_refl last.tenant_id, str_eq_refl last.public.target_id) refl
find_target-append (r ∷ rows) last h =
    elim (Bool-cases (is_target last.tenant_id last.public.target_id r)) [
      | inl same ↦ absurd (ground arith)
      | inr other ↦ rw other (find_target-append rows last (rw other at h))
    ]

-- A delete leaves each row under its id.
find_target-delete :
    (rows : List Stored) (t id u j : String)
    → find_target rows u j ≢ none
    → find_target (write_first mark_deleted rows t id) u j ≢ none
unfolding find_target write_first
find_target-delete [] t id u j h = h
find_target-delete (r ∷ rows) t id u j h =
    let ih = find_target-delete rows t id u j in
    elim (Bool-cases (is_target t id r)) [
      | inl here ↦ rw here (ground arith)
      | inr there ↦ rw there (elim (Bool-cases (is_target u j r)) [
        | inl hit ↦ rw hit (ground arith)
        | inr miss ↦ rw miss (ih (rw miss at h))
      ])
    ]

module _ (n : Numerals) (readable : Readable n) where
  -- When numbers are printed without a dash and read back as printed, a target that was created has
  -- an id that no target of the tenant had, deleted ones included, the store finds the target under
  -- it, and after a delete of any target the id is still taken.
  pub create-fresh :
      (default_schedule : Params) (store : TargetStore) (now : ℕ) (tenant_id : String)
      (target : NewTarget) (row : Target) (after : TargetStore) (u j : String) (last : TargetStore)
      → create n default_schedule store now tenant_id target ≡ ok (row, after)
      → delete after u j ≡ ok last
      → (get store tenant_id row.target_id ≡ ok none)
        × (get after tenant_id row.target_id ≡ ok (some row))
        × (get last tenant_id row.target_id ≢ ok none)
  unfolding create get delete next_target_id
  create-fresh default_schedule store now tenant_id target row after u j last e deleted =
      elim (Bool-cases (str_eq tenant_id "")) [
        | inl unnamed ↦ absurd (ground arith)
        | inr named ↦
            let fresh : find_target store.rows tenant_id row.target_id ≡ none = ground (
              arith,
              find_fresh n readable store.rows tenant_id 0
                  (max_suffix n store.rows tenant_id 0 + 1),
            ) in
            let stored : Stored = record {
              id = store.next_id;
              tenant_id = tenant_id;
              public = row;
            } in
            let rows_after : after.rows ≡ store.rows ++ stored ∷ [] = ground arith in
            let found : find_target after.rows tenant_id row.target_id ≡ some row =
              rw rows_after (find_target-append store.rows stored fresh) in
            let rows_last : last.rows ≡ write_first mark_deleted after.rows u j = ground arith in
            (
              rw (named, fresh) refl,
              rw (named, found) refl,
              λ gone.
                  find_target-delete after.rows u j tenant_id row.target_id
                    (λ missing. ground arith) (ground arith),
            )
      ]
