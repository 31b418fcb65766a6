-- ===== src/Prelude/Order.antt =====
-- A Boolean total order, as an interface, and its instance for the native numbers.
use Prim.Native.Nat.{ℕ}
use mathlib.Core.Path.{◌≡◌}
use mathlib.Core.Bool.{Bool, true, false, not, ◌&&◌, ◌||◌}
use native.Mathlib.Omega.{arith}
use aiops_apm_anomaly_detect.Prelude.Tests.{leb}

pub record Ordered {ℓ} (A : Type ℓ) : Type ℓ where
  pub at_most : A → A → Bool
  pub total : (a b : A) → at_most a b ≡ false → at_most b a ≡ true
  pub trans : (a b c : A) → at_most a b ≡ true → at_most b c ≡ true → at_most a c ≡ true
  pub antisym : (a b : A) → at_most a b ≡ true → at_most b a ≡ true → a ≡ b

pub leb-total : (a b : ℕ) → leb a b ≡ false → leb b a ≡ true
leb-total a b h = ground arith

pub leb_trans : (a b c : ℕ) → leb a b ≡ true → leb b c ≡ true → leb a c ≡ true
leb_trans a b c h k = ground arith

pub leb-antisym : (a b : ℕ) → leb a b ≡ true → leb b a ≡ true → a ≡ b
leb-antisym a b h k = ground arith

instance abbrev pub nat_ordered : Ordered ℕ
nat_ordered = record { at_most = leb; total = leb-total; trans = leb_trans; antisym = leb-antisym }

module _ {ℓ κ} {A : Type ℓ} {B : Type κ} ⦃o : Ordered A⦄ ⦃p : Ordered B⦄ where
  -- Python's order on pairs: by the first parts, then by the second.
  abbrev pub pair_at_most : A × B → A × B → Bool
  pair_at_most x y = o.at_most x.0 y.0 && (not (o.at_most y.0 x.0) || p.at_most x.1 y.1)

  pub pair-total : (x y : A × B) → pair_at_most x y ≡ false → pair_at_most y x ≡ true
  pair-total x y h = ground (arith, o.total x.0 y.0, p.total x.1 y.1)

  pub pair_trans :
      (x y z : A × B) → pair_at_most x y ≡ true → pair_at_most y z ≡ true → pair_at_most x z ≡ true
  pair_trans x y z h k =
      ground
        (arith, o.trans x.0 y.0 z.0, o.trans y.0 z.0 x.0, o.trans z.0 x.0 y.0, p.trans x.1 y.1 z.1)

  pub pair-antisym : (x y : A × B) → pair_at_most x y ≡ true → pair_at_most y x ≡ true → x ≡ y
  pair-antisym x y h k = ground (arith, o.antisym x.0 y.0, p.antisym x.1 y.1)

  instance abbrev pub pair_ordered : Ordered (A × B)
  pair_ordered = record {
    at_most = pair_at_most;
    total = pair-total;
    trans = pair_trans;
    antisym = pair-antisym;
  }
