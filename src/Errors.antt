-- ===== src/Errors.antt =====
-- src/aiops_apm/exceptions.py, and the exceptions of Python that the modelled code raises.
-- A function that may raise returns a `Result`; the text of a message is kept where it is made.
use aiops_apm_anomaly_detect.Prelude.{
  if◌then◌else◌, String, ◌⊎◌, inl, inr, ◌≡◌, refl, ap, Bool, true, false, arith,
}

pub data ErrorCode : Type 0 where
  internal not_found validation permission plugin_not_found config_error : ErrorCode
  upstream_timeout conflict upstream : ErrorCode

pub data Error : Type 0 where
  app_exception : ErrorCode → String → Error
  value_error : String → Error
  key_error : String → Error
  type_error assertion_error : Error

pub data Result {ℓ} (A : Type ℓ) : Type ℓ where
  ok : A → Result A
  err : Error → Result A

-- `if not test: raise failure`
abbrev pub guard : Bool → Error → Result (Unit {0})
guard test failure = if test then ok tt else err failure

pub Result-cases {ℓ} :
    {A : Type ℓ} (m : Result A) → ((a : A) × (m ≡ ok a)) ⊎ ((e : Error) × (m ≡ err e))
Result-cases (ok a) = inl (a, refl)
Result-cases (err e) = inr (e, refl)

-- The rest of the body runs on the value; an exception passes it by.
infixl 5 ◌>>=◌
abbrev pub ◌>>=◌ {ℓ κ} : {A : Type ℓ} {B : Type κ} → Result A → (A → Result B) → Result B
err failure >>= rest = err failure
ok value >>= rest = rest value

infixl 5 ◌>>◌
abbrev pub ◌>>◌ {κ} : {B : Type κ} → Result (Unit {0}) → Result B → Result B
first >> second = first >>= λ done. second

pub >>=-ok {ℓ κ} :
    {A : Type ℓ} {B : Type κ} {m : Result A} {a : A} (f : A → Result B) → m ≡ ok a → (m >>= f) ≡ f a
>>=-ok f e = ap (λ u. u >>= f) e

-- A body that returns had a value to run on.
pub >>=-eq-ok {ℓ κ} :
    {A : Type ℓ} {B : Type κ} (first : Result A) (rest : A → Result B) {result : B}
    → (first >>= rest) ≡ ok result
    → (value : A) × (first ≡ ok value) × (rest value ≡ ok result)
>>=-eq-ok (err failure) rest returned = ground arith
>>=-eq-ok (ok value) rest returned = (value, refl, returned)

-- A guarded body that returns passed the guard.
pub guard-ok {κ} :
    {B : Type κ} (test : Bool) (failure : Error) (rest : Result B) {result : B}
    → (guard test failure >> rest) ≡ ok result
    → (test ≡ true) × (rest ≡ ok result)
guard-ok true failure rest e = (refl, e)
guard-ok false failure rest e = absurd (ground arith)
