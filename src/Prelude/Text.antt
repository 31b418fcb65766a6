-- ===== src/Prelude/Text.antt =====
-- Python's order on texts, by code points, as an instance of the interface.
use Prim.Native.Nat.{Ordering, compare as compare_ℕ, ℕ, zero, suc}
use Prim.Native.Char.{code}
use Prim.Native.String.{String, compare, then, [], ◌∷◌, ◌++◌}
use Prim.Native.String.compare as cmp
use mathlib.Core.HLevel.{hedberg}
use mathlib.Core.Logic.{inl, inr}
use mathlib.Core.Path.{◌≡◌, refl, sym, ◌∙◌}
use mathlib.Core.Bool.{Bool, true, false, false≢true}
use mathlib.Core.List.{List}
use native.Mathlib.Omega.{arith}
use text.Mathlib.Text.{is_le, ◌==◌}
use text.Mathlib.TextEquality.{path_by_compare, eq_iff}
use aiops_apm_anomaly_detect.Prelude.Tests.{Bool-cases}
use aiops_apm_anomaly_detect.Prelude.Order.{Ordered}

abbrev pub text_leb : String → String → Bool
text_leb s t = is_le (compare s t)

flip : Ordering → Ordering
flip Ordering.lt = Ordering.gt
flip Ordering.eq = Ordering.eq
flip Ordering.gt = Ordering.lt

flip-then : (a b : Ordering) → flip (then a b) ≡ then (flip a) (flip b)
unfolding flip
flip-then Ordering.lt b = refl
flip-then Ordering.eq b = refl
flip-then Ordering.gt b = refl

flip-compare_ℕ : (a b : ℕ) → compare_ℕ b a ≡ flip (compare_ℕ a b)
unfolding flip
flip-compare_ℕ a b = ground arith

flip-compare : (s t : String) → compare t s ≡ flip (compare s t)
unfolding flip
flip-compare [] [] = refl
flip-compare [] (d ∷ t) = ground (arith, cmp.nil-cons d t, cmp.cons-nil d t)
flip-compare (c ∷ s) [] = ground (arith, cmp.nil-cons c s, cmp.cons-nil c s)
flip-compare (c ∷ s) (d ∷ t) = rw (
  cmp.cons-cons c d s t,
  cmp.cons-cons d c t s,
  flip-then,
  flip-compare_ℕ (code c) (code d),
  flip-compare s t,
)

pub text_leb-total : (s t : String) → text_leb s t ≡ false → text_leb t s ≡ true
unfolding flip
text_leb-total s t h = ground (arith, flip-compare s t)

pub text_leb-antisym : (s t : String) → text_leb s t ≡ true → text_leb t s ≡ true → s ≡ t
unfolding flip
text_leb-antisym s t h k = path_by_compare s t (ground (arith, flip-compare s t))

then_trans :
    (a b c : ℕ) (p q r : Ordering)
    → (is_le p ≡ true → is_le q ≡ true → is_le r ≡ true)
    → is_le (then (compare_ℕ a b) p) ≡ true
    → is_le (then (compare_ℕ b c) q) ≡ true
    → is_le (then (compare_ℕ a c) r) ≡ true
then_trans a b c p q r ih h k = ground arith

pub text_leb_trans :
    (s t u : String) → text_leb s t ≡ true → text_leb t u ≡ true → text_leb s u ≡ true
text_leb_trans [] t [] h k = refl
text_leb_trans [] t (d ∷ u) h k = ground (arith, cmp.nil-cons d u)
text_leb_trans (c ∷ s) [] u h k = ground (arith, cmp.cons-nil c s)
text_leb_trans (c ∷ s) (d ∷ t) [] h k = ground (arith, cmp.cons-nil d t)
text_leb_trans (c ∷ s) (d ∷ t) (e ∷ u) h k = rw (cmp.cons-cons c e s u) (
    then_trans (code c) (code d) (code e) (compare s t) (compare t u) (compare s u)
      (text_leb_trans s t u) (rw (cmp.cons-cons c d s t) at h) (rw (cmp.cons-cons d e t u) at k))

instance abbrev pub string_ordered : Ordered String
string_ordered = record {
  at_most = text_leb;
  total = text_leb-total;
  trans = text_leb_trans;
  antisym = text_leb-antisym;
}

-- The parts of an f-string, joined.
unfoldable pub concat : List String → String
concat List.[] = []
concat (List.◌∷◌ s r) = s ++ concat r

-- `sep.join(parts)`
unfoldable pub join : String → List String → String
join sep List.[] = []
join sep (List.◌∷◌ s List.[]) = s
join sep (List.◌∷◌ s (List.◌∷◌ t r)) = s ++ (sep ++ join sep (List.◌∷◌ t r))

-- `s[:n]`
unfoldable pub first_chars : ℕ → String → String
first_chars zero s = []
first_chars (suc n) [] = []
first_chars (suc n) (c ∷ s) = c ∷ first_chars n s

text_discrete : Discrete String
text_discrete s t = elim (Bool-cases (s == t)) [
  | inl e ↦ yes ((eq_iff s t).0 e)
  | inr e ↦ no (λ p. false≢true (sym e ∙ (eq_iff s t).1 p))
]

pub string_set : IsSet String
string_set = hedberg text_discrete
