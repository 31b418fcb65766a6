-- ===== src/Pipeline/Grouping/Partition.antt =====
-- Lemmas on the members of the groups of `group_anomalies`.
use mathlib.Core.List.Perm
use mathlib.Core.List.Permᴰ
use mathlib.Core.List.{Perm, Permᴰ, perm_middle, append_assoc, append-nil}
use mathlib.Core.Logic.{∥∥₁_elim, ∥∥₁_prop}
use aiops_apm_anomaly_detect.Prelude.{
  ℕ, suc, ◌≡◌, refl, ap, subst, ◌∙◌, inl, inr, List, [], ◌∷◌, ◌++◌, map, flatten, ◌==◌, ==_iff,
  length, Bool-cases, or_else,
}
use aiops_apm_anomaly_detect.Prelude.Dict.{get, put, nat_key}
use aiops_apm_anomaly_detect.Prelude.Sort.{sort_by, sort_by-perm}
use aiops_apm_anomaly_detect.Errors.{ok}
use aiops_apm_anomaly_detect.Models.Anomaly.{Anomaly}
use aiops_apm_anomaly_detect.Pipeline.Grouping.{
  Group, Components, enumerate, collect, ordered_groups, distinct, checked, connect,
  group_anomalies,
}
use aiops_apm_anomaly_detect.Pipeline.Grouping.UnionFind.{range, find}
use aiops_apm_anomaly_detect.Pipeline.Grouping.UnionFind.Forest.{length-range}
use aiops_apm_anomaly_detect.Pipeline.Grouping.Distinct.{
  length-distinct_of_perm, length-perm, NoDup-range,
}

append_swap {ℓ} : {A : Type ℓ} (a b c : List A) → Perm (a ++ (b ++ c)) (b ++ (a ++ c))
append_swap a b c =
    subst (λ v. Perm v (b ++ (a ++ c))) (append_assoc a b c)
      (subst (λ v. Perm ((a ++ b) ++ c) v) (append_assoc b a c)
        (Perm.append_right c (∣ Permᴰ.append_comm a b ∣₁)))

flatten-permᴰ {ℓ} :
    {A : Type ℓ} {xs ys : List (List A)} → Permᴰ xs ys → Perm (flatten xs) (flatten ys)
unfolding flatten
flatten-permᴰ Permᴰ.nil = Perm.rfl
flatten-permᴰ (Permᴰ.cons {a = a} e p) =
    Perm.append (subst (λ u. Perm a u) e Perm.rfl) (flatten-permᴰ p)
flatten-permᴰ (Permᴰ.swap {a = a} {b = b} {b' = b'} {l = l} e f) =
    subst (λ v. Perm (a ++ (b ++ flatten l)) (v ++ (b' ++ flatten l))) f
      (subst (λ v. Perm (a ++ (b ++ flatten l)) (b ++ (v ++ flatten l))) e
        (append_swap a b (flatten l)))
flatten-permᴰ (Permᴰ.trans p q) = Perm.trans (flatten-permᴰ p) (flatten-permᴰ q)

-- All members of all components.
abbrev all_members : List (ℕ × Group) → Group
all_members members = flatten (map (λ e. e.1) members)

put-perm :
    (members : List (ℕ × Group)) (root : ℕ) (m : ℕ × Anomaly)
    → Perm
        (all_members (put members root (or_else (get members root) [] ++ m ∷ [])))
        (m ∷ all_members members)
unfolding get put flatten
put-perm [] root m = Perm.rfl
put-perm ((k, g) ∷ members) root m = elim (Bool-cases (k == root)) [
  | inl e ↦ rw (e, append_assoc) (perm_middle g (all_members members))
  | inr e ↦ rw e (
      Perm.trans (Perm.append_left g (put-perm members root m))
        (perm_middle g (all_members members)))
]

collect-perm :
    (rest : Group) (uf : List ℕ) (c : Components)
    → Perm (all_members (collect rest uf c).0) (rest ++ all_members c.0)
unfolding collect
collect-perm [] uf (members, first_index) = Perm.rfl
collect-perm ((idx, a) ∷ rest) uf (members, first_index) =
    Perm.trans (collect-perm rest (find uf idx).1 _) (
      Perm.trans (Perm.append_left rest (put-perm members (find uf idx).0 (idx, a)))
        (perm_middle rest (all_members members)))

flatten-perm {ℓ} :
    {A : Type ℓ} {xs ys : List (List A)} → Perm xs ys → Perm (flatten xs) (flatten ys)
flatten-perm {xs} {ys} p = ∥∥₁_elim p ∥∥₁_prop flatten-permᴰ

-- The groups that the loop made, in their final order.
abbrev pub groups_of : List Anomaly → List Group
groups_of xs = ordered_groups (collect (enumerate 0 xs) (connect xs) ([], []))

groups_of-perm : (xs : List Anomaly) → Perm (flatten (groups_of xs)) (enumerate 0 xs)
unfolding ordered_groups flatten
groups_of-perm xs =
    let c = collect (enumerate 0 xs) (connect xs) ([], []) in
    Perm.trans (flatten-perm (Perm.map (λ e. e.1) (sort_by-perm _ c.0))) (
      subst (λ v. Perm (all_members c.0) v) (append-nil (enumerate 0 xs))
        (collect-perm (enumerate 0 xs) (connect xs) ([], [])))

positions-enumerate :
    (i : ℕ) (xs : List Anomaly) → map (λ m. m.0) (enumerate i xs) ≡ range i (length xs)
unfolding enumerate range
positions-enumerate i [] = refl
positions-enumerate i (a ∷ xs) = ap (λ r. i ∷ r) (positions-enumerate (suc i) xs)

length-enumerate : (i : ℕ) (xs : List Anomaly) → length (enumerate i xs) ≡ length xs
unfolding enumerate
length-enumerate i [] = refl
length-enumerate i (a ∷ xs) = ap suc (length-enumerate (suc i) xs)

-- The assertions at the end of `group_anomalies` never fail.
pub group_anomalies-groups_of : (xs : List Anomaly) → group_anomalies xs ≡ ok (groups_of xs)
unfolding group_anomalies checked enumerate collect ordered_groups sort_by
group_anomalies-groups_of [] = refl
group_anomalies-groups_of (a ∷ r) =
    let xs = a ∷ r in
    let p = groups_of-perm xs in
    let positions = positions-enumerate 0 xs in
    let count : length (flatten (groups_of xs)) ≡ length xs =
      length-perm p ∙ length-enumerate 0 xs in
    let once : length (distinct (map (λ m. m.0) (flatten (groups_of xs)))) ≡ length xs =
      length-distinct_of_perm
        (subst (λ v. Perm v (map (λ m. m.0) (flatten (groups_of xs)))) positions
          (Perm.symm (Perm.map (λ m. m.0) p)))
        (NoDup-range 0 (length xs))
      ∙ length-range 0 (length xs) in
    rw ((==_iff _ _).1 count, (==_iff _ _).1 once) refl

-- `group_anomalies` returns, its assertions hold, and its groups together are the input: every
-- position of the input with its anomaly, each once.
pub group_anomalies-partition :
    (xs : List Anomaly)
    → (gs : List Group) × (group_anomalies xs ≡ ok gs) × Perm (flatten gs) (enumerate 0 xs)
group_anomalies-partition xs = (groups_of xs, group_anomalies-groups_of xs, groups_of-perm xs)
