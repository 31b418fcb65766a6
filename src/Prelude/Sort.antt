-- ===== src/Prelude/Sort.antt =====
-- Python's `sorted`: a stable sort, and the laws that make it a normal form.
use mathlib.Core.Path.{◌≡◌, refl, ap₂, ◌∙◌}
use mathlib.Core.Logic.{∥∥₁_elim, inl, inr}
use mathlib.Core.Bool.{Bool}
use mathlib.Core.List.Perm
use mathlib.Core.List.{List, [], ◌∷◌, Perm, Permᴰ}
use native.Mathlib.Omega.{arith}
use aiops_apm_anomaly_detect.Prelude.Tests.{if◌then◌else◌, Bool-cases}
use aiops_apm_anomaly_detect.Prelude.Order.{Ordered}

module _ {ℓ} {A : Type ℓ} where
  -- Before the first item that is greater or equal, so that equal items keep their order.
  unfoldable pub insert_by : (A → A → Bool) → A → List A → List A
  insert_by le x [] = x ∷ []
  insert_by le x (y ∷ ys) = if le x y then x ∷ y ∷ ys else y ∷ insert_by le x ys

  unfoldable pub sort_by : (A → A → Bool) → List A → List A
  unfolding insert_by
  sort_by le [] = []
  sort_by le (x ∷ xs) = insert_by le x (sort_by le xs)

module _ {ℓ} {A : Type ℓ} where
  insert_by-perm : (le : A → A → Bool) (x : A) (xs : List A) → Perm (insert_by le x xs) (x ∷ xs)
  unfolding insert_by
  insert_by-perm le x [] = Perm.rfl
  insert_by-perm le x (y ∷ ys) = elim (Bool-cases (le x y)) [
    | inl e ↦ rw e Perm.rfl
    | inr e ↦ rw e (Perm.trans (Perm.cons y (insert_by-perm le x ys)) (Perm.swap x y ys))
  ]

  -- A sort only reorders.
  pub sort_by-perm : (le : A → A → Bool) (xs : List A) → Perm (sort_by le xs) xs
  unfolding sort_by
  sort_by-perm le [] = Perm.rfl
  sort_by-perm le (x ∷ xs) =
      Perm.trans (insert_by-perm le x (sort_by le xs)) (Perm.cons x (sort_by-perm le xs))

list_set {ℓ} : {A : Type ℓ} → IsSet A → IsSet (List A)
list_set h = hlevel h

module _ {ℓ} {A : Type ℓ} ⦃o : Ordered A⦄ where
  unfoldable pub sorted : List A → List A
  unfolding sort_by
  sorted xs = sort_by o.at_most xs

  insert-insert :
      (x y : A) (zs : List A)
      → insert_by o.at_most x (insert_by o.at_most y zs)
        ≡ insert_by o.at_most y (insert_by o.at_most x zs)
  unfolding insert_by
  insert-insert x y [] = ground (arith, o.total x y, o.antisym x y)
  insert-insert x y (z ∷ zs) =
      ground (arith, insert-insert x y zs, o.total x y, o.antisym x y, o.trans x y z, o.trans y x z)

  sort-permᴰ : {xs ys : List A} → Permᴰ xs ys → sorted xs ≡ sorted ys
  unfolding sorted
  sort-permᴰ Permᴰ.nil = refl
  sort-permᴰ (Permᴰ.cons e p) = ap₂ (insert_by o.at_most) e (sort-permᴰ p)
  sort-permᴰ (Permᴰ.swap {a = a} {b = b} {a' = a'} {b' = b'} {l = l} e f) =
      ap₂ (λ u v. insert_by o.at_most u (insert_by o.at_most v (sorted l))) e f
      ∙ insert-insert b' a' (sorted l)
  sort-permᴰ (Permᴰ.trans p q) = sort-permᴰ p ∙ sort-permᴰ q

  -- The sorted list does not depend on the order of the input.
  pub sorted-perm : IsSet A → {xs ys : List A} → Perm xs ys → sorted xs ≡ sorted ys
  sorted-perm set p = ∥∥₁_elim p (list_set set _ _) sort-permᴰ
