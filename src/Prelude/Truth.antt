-- ===== src/Prelude/Truth.antt =====
-- Predicates on lists by recursion: they compute to tuples, and need no truncation.
use mathlib.Core.Path.{◌≡◌, refl, sym, ap, subst}
use mathlib.Core.Logic.{◌⊎◌, inl, inr}
use mathlib.Core.Bool.{Bool, true}
use mathlib.Core.List.{List, [], ◌∷◌, ◌++◌, map}
use native.Mathlib.Omega.{arith}
use aiops_apm_anomaly_detect.Prelude.Tests.{Bool-cases}
use aiops_apm_anomaly_detect.Prelude.Lists.{some_of, keep}

-- The type with no element, at any level.
pub data Nothing {ℓ} : Type ℓ where

module _ {ℓ} {A : Type ℓ} where
  abbrev pub All {κ} : (A → Type κ) → List A → Type κ
  All P [] = Unit
  All P (x ∷ xs) = P x × All P xs

  -- Membership, with the position that shows it.
  abbrev pub In : A → List A → Type ℓ
  In a [] = Nothing
  In a (x ∷ xs) = (a ≡ x) ⊎ In a xs

module _ {ℓ} {A : Type ℓ} where
  pub In-append_left : (a : A) (xs ys : List A) → In a xs → In a (xs ++ ys)
  In-append_left a [] ys h = elim h [ ]
  In-append_left a (x ∷ xs) ys (inl e) = inl e
  In-append_left a (x ∷ xs) ys (inr h) = inr (In-append_left a xs ys h)

  pub In-append_right : (a : A) (xs ys : List A) → In a ys → In a (xs ++ ys)
  In-append_right a [] ys h = h
  In-append_right a (x ∷ xs) ys h = inr (In-append_right a xs ys h)

  pub In-append_cases : (a : A) (xs ys : List A) → In a (xs ++ ys) → In a xs ⊎ In a ys
  In-append_cases a [] ys h = inr h
  In-append_cases a (x ∷ xs) ys (inl e) = inl (inl e)
  In-append_cases a (x ∷ xs) ys (inr h) = elim (In-append_cases a xs ys h) [
    | inl l ↦ inl (inr l)
    | inr r ↦ inr r
  ]

  pub All-In {κ} : (P : A → Type κ) (xs : List A) → All P xs → (a : A) → In a xs → P a
  All-In P [] h a i = elim i [ ]
  All-In P (x ∷ xs) h a (inl e) = subst P (sym e) h.0
  All-In P (x ∷ xs) h a (inr i) = All-In P xs h.1 a i

  pub In-All {κ} : (P : A → Type κ) (xs : List A) → ((a : A) → In a xs → P a) → All P xs
  In-All P [] h = tt
  In-All P (x ∷ xs) h = (h x (inl refl), In-All P xs (λ a i. h a (inr i)))

  pub some_of-In :
      (p : A → Bool) (xs : List A) → some_of p xs ≡ true → (a : A) × In a xs × (p a ≡ true)
  some_of-In p [] h = absurd (ground arith)
  some_of-In p (x ∷ xs) h = elim (Bool-cases (p x)) [
    | inl e ↦ (x, inl refl, e)
    | inr e ↦ let (a, i, pa) = some_of-In p xs (ground arith) in (a, inr i, pa)
  ]

  pub In-some_of : (p : A → Bool) (xs : List A) (a : A) → In a xs → p a ≡ true → some_of p xs ≡ true
  In-some_of p [] a i h = elim i [ ]
  In-some_of p (x ∷ xs) a (inl e) h = ground arith
  In-some_of p (x ∷ xs) a (inr i) h = ground (arith, In-some_of p xs a i h)

  pub In-keep : (p : A → Bool) (xs : List A) (a : A) → In a xs → p a ≡ true → In a (keep p xs)
  In-keep p [] a i h = elim i [ ]
  In-keep p (x ∷ xs) a (inl e) h = let px : p x ≡ true = rw e at h in rw px (inl e)
  In-keep p (x ∷ xs) a (inr i) h = elim (Bool-cases (p x)) [
    | inl px ↦ rw px (inr (In-keep p xs a i h))
    | inr px ↦ rw px (In-keep p xs a i h)
  ]

  pub keep-In : (p : A → Bool) (xs : List A) (a : A) → In a (keep p xs) → In a xs × (p a ≡ true)
  keep-In p [] a i = elim i [ ]
  keep-In p (x ∷ xs) a i = elim (Bool-cases (p x)) [
    | inl px ↦
        let j : In a (x ∷ keep p xs) = rw px at i in
        elim j [ inl e ↦ (inl e, rw e px) | inr k ↦ let (m, h) = keep-In p xs a k in (inr m, h) ]
    | inr px ↦ let (j, h) = keep-In p xs a (rw px at i) in (inr j, h)
  ]

pub In-map {ℓ κ} :
    {A : Type ℓ} {B : Type κ} (f : A → B) (xs : List A) (a : A) → In a xs → In (f a) (map f xs)
In-map f [] a i = elim i [ ]
In-map f (x ∷ xs) a (inl e) = inl (ap f e)
In-map f (x ∷ xs) a (inr i) = inr (In-map f xs a i)

pub map-In {ℓ κ} :
    {A : Type ℓ} {B : Type κ} (f : A → B) (xs : List A) (b : B)
    → In b (map f xs)
    → (a : A) × In a xs × (b ≡ f a)
map-In f [] b i = elim i [ ]
map-In f (x ∷ xs) b (inl e) = (x, inl refl, e)
map-In f (x ∷ xs) b (inr i) = let (a, j, e) = map-In f xs b i in (a, inr j, e)
