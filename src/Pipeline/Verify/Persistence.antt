-- ===== src/Pipeline/Verify/Persistence.antt =====
-- The persistence count of the verification, over a whole group.
use aiops_apm_anomaly_detect.Prelude.{
  ℕ, ◌+◌, ◌≤◌, ◌<◌, ◌≡◌, refl, sym, subst, ◌↔◌, inl, inr, String, Bool, true, false, Option, List,
  [], ◌∷◌, In, arith, Bool-cases, is_nonempty, some_of, some_of-In, str_eq_refl, if◌then◌else◌,
  str_eq, str_eq_iff,
}
use aiops_apm_anomaly_detect.Prelude.Dict as Dict
use aiops_apm_anomaly_detect.Prelude.Dict.{text_triple_key, get-put}
use aiops_apm_anomaly_detect.Prelude.Int.{pos, leb_ℤ}
use aiops_apm_anomaly_detect.Errors.{ok}
use aiops_apm_anomaly_detect.Models.Anomaly.{Anomaly}
use aiops_apm_anomaly_detect.Models.Record.{Verification}
use aiops_apm_anomaly_detect.Models.Fingerprint.{Hashing, anomaly_key}
use aiops_apm_anomaly_detect.Storage.DetectionState.{StateRows, PersistenceState, get, upsert}
use aiops_apm_anomaly_detect.Pipeline.Verify.{
  VerifyContext, Persisted, rounds_of, first_seen_of, add_key, count_round, count_rounds, judged,
  l3_verify,
}

module _ (h : Hashing) (ctx : VerifyContext) where
  -- The appearances of a key that the store has counted.
  abbrev pub rounds : StateRows → String → ℕ
  rounds rows key = rounds_of (Dict.get rows (ctx.tenant_id, ctx.domain, key))

  -- How many anomalies of the group have the key.
  abbrev pub occurrences : String → List Anomaly → ℕ
  occurrences key [] = 0
  occurrences key (a ∷ r) = (if str_eq (anomaly_key h a) key then 1 else 0) + occurrences key r

  abbrev pub Enough : ℕ → Type 0
  Enough n = leb_ℤ ctx.verify.persistence_rounds (pos n) ≡ true

  -- What the loop leaves behind.
  record Counted (anomalies : List Anomaly) (rows : StateRows) (p : Persisted) : Type 0 where
    counts : (key : String) → rounds p.1 key ≡ rounds rows key + occurrences key anomalies
    persists :
        (is_nonempty p.0 ≡ true)
        ↔ ((a : Anomaly) × In a anomalies × Enough (rounds p.1 (anomaly_key h a)))
    seen : (a : Anomaly) → In a anomalies → In (anomaly_key h a) p.2

  add_key-In : (key : String) (keys : List String) → In key (add_key key keys)
  unfolding add_key
  add_key-In key keys = elim (Bool-cases (some_of (λ k. str_eq k key) keys)) [
    | inl e ↦
        let (k, i, same) = some_of-In (λ k. str_eq k key) keys e in
        rw e (subst (λ u. In u keys) ((str_eq_iff k key).0 same) i)
    | inr e ↦ rw e (inl refl)
  ]

  add_key-keeps :
      (key other : String) (keys : List String) → In other keys → In other (add_key key keys)
  unfolding add_key
  add_key-keeps key other keys i = elim (Bool-cases (some_of (λ k. str_eq k key) keys)) [
    | inl e ↦ rw e i
    | inr e ↦ rw e (inr i)
  ]

  -- One turn, for a tenant that is named.
  abbrev next_state : Option PersistenceState → PersistenceState
  next_state o = record {
    consecutive_rounds = rounds_of o + 1;
    miss_rounds = 0;
    first_seen = first_seen_of o ctx.now;
    last_seen = ctx.now;
  }

  abbrev next_rows : Anomaly → StateRows → StateRows
  next_rows a rows =
      Dict.put rows (ctx.tenant_id, ctx.domain, anomaly_key h a)
        (next_state (Dict.get rows (ctx.tenant_id, ctx.domain, anomaly_key h a)))

  count_round-ok :
      (a : Anomaly) (rows : StateRows) (seen : List String)
      → str_eq ctx.tenant_id "" ≡ false
      → count_round h ctx a rows seen
        ≡ ok (
          leb_ℤ ctx.verify.persistence_rounds (pos (rounds rows (anomaly_key h a) + 1)),
          next_rows a rows,
          add_key (anomaly_key h a) seen,
        )
  unfolding count_round get upsert
  count_round-ok a rows seen t = rw t refl

  next-rounds :
      (a : Anomaly) (rows : StateRows) (key : String)
      → rounds (next_rows a rows) key
        ≡ rounds rows key + (if str_eq (anomaly_key h a) key then 1 else 0)
  next-rounds a rows key = ground (
    arith,
    str_eq_iff (anomaly_key h a) key,
    str_eq_refl ctx.tenant_id,
    str_eq_refl ctx.domain,
    get-put rows (ctx.tenant_id, ctx.domain, anomaly_key h a) (ctx.tenant_id, ctx.domain, key)
        (next_state (Dict.get rows (ctx.tenant_id, ctx.domain, anomaly_key h a))),
  )

  occurs-In :
      (key : String) (anomalies : List Anomaly)
      → 0 < occurrences key anomalies
      → (a : Anomaly) × In a anomalies × (anomaly_key h a ≡ key)
  occurs-In key [] l = absurd (omega arith)
  occurs-In key (a ∷ r) l = elim (Bool-cases (str_eq (anomaly_key h a) key)) [
    | inl e ↦ (a, inl refl, (str_eq_iff (anomaly_key h a) key).0 e)
    | inr e ↦
        let (b, i, same) =
          let l' : 0 < 0 + occurrences key r = rw e at l in occurs-In key r (omega arith) in
        (b, inr i, same)
  ]

  Enough-mono : (n m : ℕ) → n ≤ m → Enough n → Enough m
  Enough-mono n m l e = ground arith

  module _ (a : Anomaly) (r : List Anomaly) (rows : StateRows) (p : Persisted) where
    abbrev key : String
    key = anomaly_key h a

    abbrev now : ℕ
    now = rounds rows key + 1

    rounds_after : Counted r (next_rows a rows) p → rounds p.1 key ≡ now + occurrences key r
    rounds_after c = ground (arith, str_eq_refl key, c.counts key, next-rounds a rows key)

    persists_step :
        Counted r (next_rows a rows) p
        → (is_nonempty (if leb_ℤ ctx.verify.persistence_rounds (pos now) then a ∷ p.0 else p.0)
            ≡ true)
          ↔ ((b : Anomaly) × In b (a ∷ r) × Enough (rounds p.1 (anomaly_key h b)))
    persists_step c = elim (Bool-cases (leb_ℤ ctx.verify.persistence_rounds (pos now))) [
      | inl e ↦
          let later : now ≤ rounds p.1 key = omega (arith, rounds_after c) in
          (λ n. (a, inl refl, Enough-mono now (rounds p.1 key) later e), λ n. rw e refl)
      | inr e ↦ rw e (
        λ n. let (b, i, q) = c.persists.0 n in (b, inr i, q),
        λ (b, i, q). c.persists.1 (elim i [
          | inr j ↦ (b, j, q)
          | inl same ↦
              let reached : Enough (rounds p.1 key) =
                subst (λ x. Enough (rounds p.1 (anomaly_key h x))) same q in
              let again : 0 < occurrences key r = ground (arith, rounds_after c) in
              let (d, j, k) = occurs-In key r again in
              (d, j, subst (λ x. Enough (rounds p.1 x)) (sym k) reached)
        ]),
      )
    ]

  count_rounds-Counted :
      (anomalies : List Anomaly) (rows : StateRows) (seen : List String)
      → str_eq ctx.tenant_id "" ≡ false
      → (p : Persisted) × (count_rounds h ctx anomalies rows seen ≡ ok p)
        × Counted anomalies rows p
        × ((key : String) → In key seen → In key p.2)
  unfolding count_rounds
  count_rounds-Counted [] rows seen t = (
    ([], rows, seen),
    refl,
    record {
      counts = λ key. omega arith;
      persists = (λ e. absurd (ground arith), λ (a, i, e). elim i [ ]);
      seen = λ a i. elim i [ ];
    },
    λ key i. i,
  )
  count_rounds-Counted (a ∷ r) rows seen t =
      let key = anomaly_key h a in
      let now = rounds rows key + 1 in
      let (p, run, c, kept) = count_rounds-Counted r (next_rows a rows) (add_key key seen) t in
      let persists = leb_ℤ ctx.verify.persistence_rounds (pos now) in
      let counts : (k : String) → rounds p.1 k ≡ rounds rows k + occurrences k (a ∷ r) =
        λ k. omega (arith, c.counts k, next-rounds a rows k) in
      (
        (if persists then a ∷ p.0 else p.0, p.1, p.2),
        rw (count_round-ok a rows seen t, run) refl,
        record {
          counts = counts;
          persists = persists_step a r rows p c;
          seen =
              λ b i. elim i [ inl e ↦ rw e (kept key (add_key-In key seen)) | inr j ↦ c.seen b j ];
        },
        λ k i. kept k (add_key-keeps key k seen i),
      )

is_nonempty-judged :
    (h : Hashing) (ctx : VerifyContext) (service : String) (related : Bool)
    (persisted : List Anomaly)
    → (judged h ctx service related persisted).passed ≡ is_nonempty persisted
unfolding judged
is_nonempty-judged h ctx service related [] = refl
is_nonempty-judged h ctx service related (a ∷ r) = refl

-- For a tenant with a name, the verification of a group returns. Each anomaly's key has then one
-- more counted round per anomaly of the group with that key, all other keys of the tenant's domain
-- are as before, and the group passes exactly when the new count of one of its keys reaches
-- `persistence_rounds`. Every key of the group has been seen.
pub l3_verify-persistence :
    (h : Hashing) (ctx : VerifyContext) (service : String) (anomalies : List Anomaly)
    (related : Bool) (rows : StateRows) (seen : List String)
    → str_eq ctx.tenant_id "" ≡ false
    → (v : Verification) × (rows' : StateRows) × (seen' : List String) × (l3_verify h ctx service
          anomalies related rows seen
        ≡ ok (v, rows', seen'))
      × ((key : String)
          → rounds h ctx rows' key ≡ rounds h ctx rows key + occurrences h ctx key anomalies)
      × ((v.passed ≡ true)
          ↔ ((a : Anomaly) × In a anomalies × Enough h ctx (rounds h ctx rows' (anomaly_key h a))))
      × ((a : Anomaly) → In a anomalies → In (anomaly_key h a) seen')
unfolding l3_verify
l3_verify-persistence h ctx service anomalies related rows seen t =
    let (p, run, c, kept) = count_rounds-Counted h ctx anomalies rows seen t in
    (
      judged h ctx service related p.0,
      p.1,
      p.2,
      rw run refl,
      c.counts,
      subst
          (λ b.
            (b ≡ true)
            ↔ ((a : Anomaly) × In a anomalies × Enough h ctx (rounds h ctx p.1 (anomaly_key h a))))
          (sym (is_nonempty-judged h ctx service related p.0)) c.persists,
      c.seen,
    )
