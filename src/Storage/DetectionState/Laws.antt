-- ===== src/Storage/DetectionState/Laws.antt =====
-- The sweep and the listing of the persistence store.
use aiops_apm_anomaly_detect.Prelude.{
  ◌+◌, ◌≡◌, refl, subst, ◌⊎◌, inl, inr, String, true, false, not, ◌&&◌, Option, none, some, List,
  [], ◌∷◌, In, arith, Bool-cases, str_eq, str_eq_iff, Bool, some_of, some_of-In, In-some_of,
  str_eq_refl,
}
use mathlib.Core.Option as Option
use aiops_apm_anomaly_detect.Errors.{ok}
use aiops_apm_anomaly_detect.Prelude.Dict as Dict
use aiops_apm_anomaly_detect.Prelude.Dict.{text_triple_key, string_key, get-put}
use aiops_apm_anomaly_detect.Storage.DetectionState.{
  StateRows, StateKey, PersistenceState, sweep, swept, sweep_rows, rows_of_domain,
}

-- A sweep goes over the rows one by one.
pub get-sweep_rows :
    (rows : StateRows) (tenant_id domain : String) (seen_keys : List String) (k : StateKey)
    → Dict.get (sweep_rows rows tenant_id domain seen_keys) k
      ≡ Option.map (swept tenant_id domain seen_keys k) (Dict.get rows k)
unfolding sweep_rows Dict.get
get-sweep_rows [] tenant_id domain seen_keys k = refl
get-sweep_rows ((j, row) ∷ rows) tenant_id domain seen_keys k =
    ground (arith, text_triple_key.beq_iff j k, get-sweep_rows rows tenant_id domain seen_keys k)

-- The key is one of the domain that the round has not seen.
abbrev pub Missed : String → String → List String → StateKey → Type 0
Missed tenant_id domain seen_keys (t, d, k) = (t ≡ tenant_id) × (d ≡ domain) × (¬ In k seen_keys)

-- The row of a key after a sweep, by the row before it.
abbrev pub Swept :
    String
    → String
    → List String
    → StateKey
    → Option PersistenceState
    → Option PersistenceState
    → Type 0
Swept tenant_id domain seen_keys key none none = Unit
Swept tenant_id domain seen_keys key none (some new) = ⊥
Swept tenant_id domain seen_keys key (some row) none = ⊥
Swept tenant_id domain seen_keys key (some row) (some new) =
    (new.consecutive_rounds ≡ row.consecutive_rounds)
    × (new.first_seen ≡ row.first_seen)
    × (new.last_seen ≡ row.last_seen)
    × ((Missed tenant_id domain seen_keys key × (new.miss_rounds ≡ row.miss_rounds + 1))
        ⊎ ((¬ Missed tenant_id domain seen_keys key) × (new.miss_rounds ≡ row.miss_rounds)))

abbrev misses : String → String → List String → StateKey → Bool
misses tenant_id domain seen_keys (t, d, k) =
    str_eq t tenant_id && (str_eq d domain && not (some_of (λ s. str_eq s k) seen_keys))

seen_In :
    (k : String) (seen_keys : List String)
    → some_of (λ s. str_eq s k) seen_keys ≡ true
    → In k seen_keys
seen_In k seen_keys e =
    let (s, i, same) = some_of-In (λ s. str_eq s k) seen_keys e in
    subst (λ u. In u seen_keys) ((str_eq_iff s k).0 same) i

Missed-cases :
    (tenant_id domain : String) (seen_keys : List String) (t d k : String)
    → (Missed tenant_id domain seen_keys (t, d, k)
        × (misses tenant_id domain seen_keys (t, d, k) ≡ true))
      ⊎ ((¬ Missed tenant_id domain seen_keys (t, d, k))
          × (misses tenant_id domain seen_keys (t, d, k) ≡ false))
Missed-cases tenant_id domain seen_keys t d k = elim (Bool-cases (str_eq t tenant_id)) [
  | inr e ↦ inr (λ (a, b, c). absurd (ground (arith, a, e, str_eq_iff t tenant_id)), rw e refl)
  | inl e ↦ elim (Bool-cases (str_eq d domain)) [
    | inr f ↦ inr (λ (a, b, c). absurd (ground (arith, b, f, str_eq_iff d domain)), rw (e, f) refl)
    | inl f ↦ elim (Bool-cases (some_of (λ s. str_eq s k) seen_keys)) [
      | inl g ↦ inr (λ (a, b, c). c (seen_In k seen_keys g), rw (e, f, g) refl)
      | inr g ↦ inl (
        (
          (str_eq_iff t tenant_id).0 e,
          (str_eq_iff d domain).0 f,
          λ i.
              let seen : some_of (λ s. str_eq s k) seen_keys ≡ true =
                In-some_of (λ s. str_eq s k) seen_keys k i (str_eq_refl k) in
              absurd (ground arith),
        ),
        rw (e, f, g) refl,
      )
    ]
  ]
]

swept-Swept :
    (tenant_id domain : String) (seen_keys : List String) (key : StateKey)
    (o : Option PersistenceState)
    → Swept tenant_id domain seen_keys key o (Option.map (swept tenant_id domain seen_keys key) o)
swept-Swept tenant_id domain seen_keys key none = tt
swept-Swept tenant_id domain seen_keys (t, d, k) (some row) =
    elim (Missed-cases tenant_id domain seen_keys t d k) [
      | inl (missed, e) ↦ rw e (refl, refl, refl, inl (missed, refl))
      | inr (kept, e) ↦ rw e (refl, refl, refl, inr (kept, refl))
    ]

-- When a sweep of a domain returned, each key that had a row has one, with the rounds and times of
-- the row before, and no other key has one; and the row has one more miss when the key is of the
-- tenant and the domain and was not seen, and as many misses as before when it is not so.
pub sweep-Swept :
    (rows after : StateRows) (tenant_id domain : String) (seen_keys : List String) (k : StateKey)
    → sweep rows tenant_id domain seen_keys ≡ ok after
    → Swept tenant_id domain seen_keys k (Dict.get rows k) (Dict.get after k)
unfolding sweep
sweep-Swept rows after tenant_id domain seen_keys k e =
    let same : sweep_rows rows tenant_id domain seen_keys ≡ after = ground arith in
    rw (← same, get-sweep_rows rows tenant_id domain seen_keys k)
      (swept-Swept tenant_id domain seen_keys k (Dict.get rows k))

-- The listing of a domain answers for each key what the store answers.
pub get-rows_of_domain :
    (rows : StateRows) (tenant_id domain key : String)
    → Dict.get (rows_of_domain rows tenant_id domain) key ≡ Dict.get rows (tenant_id, domain, key)
unfolding rows_of_domain Dict.get
get-rows_of_domain [] tenant_id domain key = refl
get-rows_of_domain (((t, d, k), row) ∷ rows) tenant_id domain key = ground (
  arith,
  str_eq_iff t tenant_id,
  str_eq_iff d domain,
  str_eq_iff k key,
  get-rows_of_domain rows tenant_id domain key,
)
