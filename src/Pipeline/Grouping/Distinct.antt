-- ===== src/Pipeline/Grouping/Distinct.antt =====
-- Lists of positions without repetition, and the set that `add` and `distinct` build.
use mathlib.Core.List.{Perm, Permᴰ}
use mathlib.Core.Logic.{∥∥₁_elim}
use native.Mathlib.Nat.{ℕ_set}
use aiops_apm_anomaly_detect.Prelude.{
  ℕ, zero, suc, ◌≤◌, ◌≡◌, refl, sym, ap, subst, ◌∙◌, ◌⊎◌, inl, inr, List, [], ◌∷◌, ◌++◌, In, arith,
  ◌==◌, ==_iff, Bool-cases, some_of, some_of-In, In-some_of, In-append_left, In-append_right,
  In-append_cases, length, length-append,
}
use aiops_apm_anomaly_detect.Pipeline.Grouping.{add, distinct}
use aiops_apm_anomaly_detect.Pipeline.Grouping.UnionFind.{range}

abbrev pub NoDup : List ℕ → Type 0
NoDup [] = Unit
NoDup (x ∷ xs) = (¬ In x xs) × NoDup xs

pub NoDup-snoc : (xs : List ℕ) (x : ℕ) → NoDup xs → ¬ In x xs → NoDup (xs ++ x ∷ [])
NoDup-snoc [] x h f = (λ i. elim i [ ], tt)
NoDup-snoc (y ∷ ys) x h f = (
  λ i. elim (In-append_cases y ys (x ∷ []) i) [
    | inl l ↦ h.0 l
    | inr (inl e) ↦ f (inl (sym e))
    | inr (inr e) ↦ elim e [ ]
  ],
  NoDup-snoc ys x h.1 (λ i. f (inr i)),
)

pub NoDup-add : (x : ℕ) (xs : List ℕ) → NoDup xs → NoDup (add x xs)
unfolding add
NoDup-add x xs h = elim (Bool-cases (some_of (λ r. r == x) xs)) [
  | inl e ↦ rw e h
  | inr e ↦ rw e (
      NoDup-snoc xs x h
        (λ i. let t = In-some_of (λ r. r == x) xs x i (ground arith) in ground arith))
]

pub In-add_self : (x : ℕ) (xs : List ℕ) → In x (add x xs)
unfolding add
In-add_self x xs = elim (Bool-cases (some_of (λ r. r == x) xs)) [
  | inl e ↦
      let (r, i, same) = some_of-In (λ r. r == x) xs e in
      rw e (subst (λ u. In u xs) ((==_iff r x).0 same) i)
  | inr e ↦ rw e (In-append_right x xs (x ∷ []) (inl refl))
]

pub In-add_keeps : (x y : ℕ) (xs : List ℕ) → In y xs → In y (add x xs)
unfolding add
In-add_keeps x y xs i = elim (Bool-cases (some_of (λ r. r == x) xs)) [
  | inl e ↦ rw e i
  | inr e ↦ rw e (In-append_left y xs (x ∷ []) i)
]

pub In-add_cases : (x y : ℕ) (xs : List ℕ) → In y (add x xs) → (y ≡ x) ⊎ In y xs
unfolding add
In-add_cases x y xs i = elim (Bool-cases (some_of (λ r. r == x) xs)) [
  | inl e ↦ inr (rw e at i)
  | inr e ↦
      let j : In y (xs ++ x ∷ []) = rw e at i in
      elim (In-append_cases y xs (x ∷ []) j) [
        | inl l ↦ inr l
        | inr (inl s) ↦ inl s
        | inr (inr n) ↦ elim n [ ]
      ]
]

length-add_new : (x : ℕ) (xs : List ℕ) → ¬ In x xs → length (add x xs) ≡ suc (length xs)
unfolding add
length-add_new x xs h = elim (Bool-cases (some_of (λ r. r == x) xs)) [
  | inl e ↦
      let (r, i, same) = some_of-In (λ r. r == x) xs e in
      absurd (h (subst (λ u. In u xs) ((==_iff r x).0 same) i))
  | inr e ↦ rw e (omega (arith, length-append xs (x ∷ [])))
]

distinct-In : (x : ℕ) (xs : List ℕ) → In x (distinct xs) → In x xs
unfolding distinct
distinct-In x [] i = elim i [ ]
distinct-In x (y ∷ ys) i = elim (In-add_cases y x (distinct ys) i) [
  | inl e ↦ inl e
  | inr j ↦ inr (distinct-In x ys j)
]

length-distinct_of_NoDup : (xs : List ℕ) → NoDup xs → length (distinct xs) ≡ length xs
unfolding distinct
length-distinct_of_NoDup [] h = refl
length-distinct_of_NoDup (x ∷ xs) h =
    length-add_new x (distinct xs) (λ i. h.0 (distinct-In x xs i))
    ∙ ap suc (length-distinct_of_NoDup xs h.1)

In-permᴰ {ℓ} : {A : Type ℓ} {xs ys : List A} (a : A) → Permᴰ xs ys → In a xs → In a ys
In-permᴰ a Permᴰ.nil i = i
In-permᴰ a (Permᴰ.cons e p) i = elim i [ inl h ↦ inl (h ∙ e) | inr h ↦ inr (In-permᴰ a p h) ]
In-permᴰ a (Permᴰ.swap e f) i = elim i [
  | inl h ↦ inr (inl (h ∙ e))
  | inr (inl h) ↦ inl (h ∙ f)
  | inr (inr h) ↦ inr (inr h)
]
In-permᴰ a (Permᴰ.trans p q) i = In-permᴰ a q (In-permᴰ a p i)

module _ {ℓ} {A : Type ℓ} where
  permᴰ_symm : {xs ys : List A} → Permᴰ xs ys → Permᴰ ys xs
  permᴰ_symm Permᴰ.nil = Permᴰ.nil
  permᴰ_symm (Permᴰ.cons e p) = Permᴰ.cons (sym e) (permᴰ_symm p)
  permᴰ_symm (Permᴰ.swap e f) = Permᴰ.swap (sym f) (sym e)
  permᴰ_symm (Permᴰ.trans p q) = Permᴰ.trans (permᴰ_symm q) (permᴰ_symm p)

  length-permᴰ : {xs ys : List A} → Permᴰ xs ys → length xs ≡ length ys
  length-permᴰ Permᴰ.nil = refl
  length-permᴰ (Permᴰ.cons e p) = ap suc (length-permᴰ p)
  length-permᴰ (Permᴰ.swap e f) = refl
  length-permᴰ (Permᴰ.trans p q) = length-permᴰ p ∙ length-permᴰ q

  pub length-perm : {xs ys : List A} → Perm xs ys → length xs ≡ length ys
  length-perm p = ∥∥₁_elim p (ℕ_set _ _) length-permᴰ

NoDup-permᴰ : {xs ys : List ℕ} → Permᴰ xs ys → NoDup xs → NoDup ys
NoDup-permᴰ Permᴰ.nil h = h
NoDup-permᴰ (Permᴰ.cons {l₁ = xs} {l₂ = ys} e p) h =
    (λ i. h.0 (subst (λ u. In u xs) (sym e) (In-permᴰ _ (permᴰ_symm p) i)), NoDup-permᴰ p h.1)
NoDup-permᴰ (Permᴰ.swap {l = l} e f) h = (
  λ i. elim i [
    | inl s ↦ h.0 (inl (e ∙ sym s ∙ sym f))
    | inr j ↦ h.1.0 (subst (λ u. In u l) (sym f) j)
  ],
  (λ i. h.0 (inr (subst (λ u. In u l) (sym e) i)), h.1.1),
)
NoDup-permᴰ (Permᴰ.trans p q) h = NoDup-permᴰ q (NoDup-permᴰ p h)

-- A permutation of a list without repetition has as many distinct items as the list is long.
pub length-distinct_of_perm :
    {xs ys : List ℕ} → Perm xs ys → NoDup xs → length (distinct ys) ≡ length xs
length-distinct_of_perm {xs} {ys} p h =
    ∥∥₁_elim p (ℕ_set _ _) λ d. length-distinct_of_NoDup ys (NoDup-permᴰ d h) ∙ sym (length-permᴰ d)

range-In : (k n x : ℕ) → In x (range k n) → k ≤ x
unfolding range
range-In k zero x i = elim i [ ]
range-In k (suc n) x (inl e) = omega arith
range-In k (suc n) x (inr i) = omega (arith, range-In (suc k) n x i)

pub NoDup-range : (k n : ℕ) → NoDup (range k n)
unfolding range
NoDup-range k zero = tt
NoDup-range k (suc n) = (λ i. absurd (omega (arith, range-In (suc k) n k i)), NoDup-range (suc k) n)
