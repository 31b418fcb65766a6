-- ===== src/Prelude/Dict.antt =====
-- Python's `dict`: an association list in insertion order; a write to a key that is there keeps
-- the key's place. Keys are compared by a Boolean equality that decides `≡`.
use Prim.Native.Nat.{ℕ}
use Prim.Native.String.{String}
use mathlib.Core.Path.{◌≡◌, refl}
use mathlib.Core.Logic.{◌↔◌, inl, inr}
use mathlib.Core.Bool.{Bool, true, false, ◌&&◌}
use mathlib.Core.List.{List, [], ◌∷◌}
use mathlib.Core.Option.{Option, none, some}
use native.Mathlib.Omega.{arith}
use text.Mathlib.Text.{◌==◌ as str_eq}
use text.Mathlib.TextEquality.{eq_iff as str_eq_iff}
use aiops_apm_anomaly_detect.Prelude.Tests.{if◌then◌else◌, Bool-cases, ◌==◌ as nat_eq, ==_iff}

pub record Eq {ℓ} (A : Type ℓ) : Type ℓ where
  pub beq : A → A → Bool
  pub beq_iff : (a b : A) → (beq a b ≡ true) ↔ (a ≡ b)

instance abbrev pub nat_key : Eq ℕ
nat_key = record { beq = nat_eq; beq_iff = ==_iff }

instance abbrev pub string_key : Eq String
string_key = record { beq = str_eq; beq_iff = str_eq_iff }

module _ {ℓ κ} {A : Type ℓ} {B : Type κ} ⦃a : Eq A⦄ ⦃b : Eq B⦄ where
  abbrev pub pair_beq : A × B → A × B → Bool
  pair_beq p q = a.beq p.0 q.0 && b.beq p.1 q.1

  pub pair_beq_iff : (p q : A × B) → (pair_beq p q ≡ true) ↔ (p ≡ q)
  pair_beq_iff p q = (
    λ h. ground (arith, a.beq_iff p.0 q.0, b.beq_iff p.1 q.1),
    λ e. ground (arith, a.beq_iff p.0 q.0, b.beq_iff p.1 q.1),
  )

abbrev pair_key {ℓ κ} : {A : Type ℓ} {B : Type κ} → Eq A → Eq B → Eq (A × B)
pair_key a b = record { beq = pair_beq ⦃a = a⦄ ⦃b = b⦄; beq_iff = pair_beq_iff ⦃a = a⦄ ⦃b = b⦄ }

instance abbrev pub text_pair_key : Eq (String × String)
text_pair_key = pair_key string_key string_key

abbrev pub text_triple_beq : String × String × String → String × String × String → Bool
text_triple_beq (a, b, c) (d, e, f) = str_eq a d && (str_eq b e && str_eq c f)

pub text_triple_beq_iff : (p q : String × String × String) → (text_triple_beq p q ≡ true) ↔ (p ≡ q)
text_triple_beq_iff (a, b, c) (d, e, f) = (
  λ h. ground (arith, str_eq_iff a d, str_eq_iff b e, str_eq_iff c f),
  λ h. ground (arith, str_eq_iff a d, str_eq_iff b e, str_eq_iff c f),
)

instance abbrev pub text_triple_key : Eq (String × String × String)
text_triple_key = record { beq = text_triple_beq; beq_iff = text_triple_beq_iff }

module _ {ℓ κ} {K : Type ℓ} {V : Type κ} ⦃e : Eq K⦄ where
  -- `d.get(k)`
  unfoldable pub get : List (K × V) → K → Option V
  get [] k = none
  get ((j, v) ∷ d) k = if e.beq j k then some v else get d k

  -- `d[k] = v`
  unfoldable pub put : List (K × V) → K → V → List (K × V)
  put [] k v = (k, v) ∷ []
  put ((j, w) ∷ d) k v = if e.beq j k then (j, v) ∷ d else (j, w) ∷ put d k v

  -- `d.pop(k, None)`
  unfoldable pub remove : List (K × V) → K → List (K × V)
  remove [] k = []
  remove ((j, w) ∷ d) k = if e.beq j k then d else (j, w) ∷ remove d k

  pub get-put :
      (d : List (K × V)) (k j : K) (v : V)
      → get (put d k v) j ≡ (if e.beq k j then some v else get d j)
  unfolding get put
  get-put [] k j v = refl
  get-put ((i, w) ∷ d) k j v =
      ground (arith, e.beq_iff k j, e.beq_iff i k, e.beq_iff i j, get-put d k j v)

  pub get-remove_ne :
      (d : List (K × V)) (k j : K) → e.beq k j ≡ false → get (remove d k) j ≡ get d j
  unfolding get remove
  get-remove_ne [] k j h = refl
  get-remove_ne ((i, w) ∷ d) k j h =
      ground (arith, e.beq_iff k j, e.beq_iff i k, e.beq_iff i j, get-remove_ne d k j h)

  -- No key stands twice, as in a Python dictionary.
  abbrev pub DistinctKeys : List (K × V) → Type κ
  DistinctKeys [] = Unit
  DistinctKeys ((k, v) ∷ d) = (get d k ≡ none) × DistinctKeys d

  pub put-DistinctKeys :
      (d : List (K × V)) (k : K) (v : V) → DistinctKeys d → DistinctKeys (put d k v)
  unfolding put get
  put-DistinctKeys [] k v h = (refl, tt)
  put-DistinctKeys ((j, w) ∷ d) k v h = elim (Bool-cases (e.beq j k)) [
    | inl t ↦ rw t (h.0, h.1)
    | inr t ↦
        let fresh : get (put d k v) j ≡ none =
          ground (arith, e.beq_iff k j, e.beq_iff j k, get-put d k j v, h.0) in
        rw t (fresh, put-DistinctKeys d k v h.1)
  ]

  -- What the rest of the dictionary holds, the dictionary holds.
  pub get-tail :
      (d : List (K × V)) (j k : K) (w v : V)
      → get d j ≡ none
      → get d k ≡ some v
      → get ((j, w) ∷ d) k ≡ some v
  unfolding get
  get-tail d j k w v h found = ground (arith, e.beq_iff j k)
