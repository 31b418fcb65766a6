-- ===== src/Scheduler/Ticks.antt =====
-- Lemmas on _run_group of src/aiops_apm/scheduler.py and the next runs of its targets.
use aiops_apm_anomaly_detect.Prelude.{
  ℕ, ◌+◌, ◌≡◌, refl, sym, ap, ◌∙◌, ◌⊎◌, inl, inr, String, true, false, not, some, List, [], ◌∷◌,
  arith, In, Bool-cases, keep, some_of, str_eq, str_eq_iff, str_eq_refl,
}
use aiops_apm_anomaly_detect.Prelude.Dict as Dict
use aiops_apm_anomaly_detect.Prelude.Dict.{text_pair_key, get-put}
use aiops_apm_anomaly_detect.Errors.{Result, ok, err}
use aiops_apm_anomaly_detect.Storage.Targets.{Target}
use aiops_apm_anomaly_detect.Scheduler.{
  Key, State, Config, same_key, interval_of, recover_all, reschedule, group_body, group_finally,
  caught, run_group,
}

module _ (c : Config) (now : ℕ) (tenant_id : String) where
  abbrev pub again : Target → ℕ
  again t = now + (interval_of c t + c.jitter (interval_of c t))

  -- Targets of one id have one interval.
  abbrev pub Consistent : List Target → Type 0
  Consistent ts = (t u : Target) → In t ts → In u ts → t.target_id ≡ u.target_id → again t ≡ again u

  reschedule_lem :
      (ts : List Target) (next_run : List (Key × ℕ)) (t : Target)
      → ((u : Target) → In u ts → t.target_id ≡ u.target_id → again t ≡ again u)
      → (In t ts ⊎ (Dict.get next_run (tenant_id, t.target_id) ≡ some (again t)))
      → Dict.get (reschedule c now tenant_id ts next_run) (tenant_id, t.target_id) ≡ some (again t)
  unfolding reschedule
  reschedule_lem [] next_run t same (inl i) = elim i [ ]
  reschedule_lem [] next_run t same (inr e) = e
  reschedule_lem (u ∷ ts) next_run t same h =
      let noted = Dict.put next_run (tenant_id, u.target_id) (again u) in
      let looked = get-put next_run (tenant_id, u.target_id) (tenant_id, t.target_id) (again u) in
      let there : (In t ts) ⊎ (Dict.get noted (tenant_id, t.target_id) ≡ some (again t)) =
        elim (Bool-cases (str_eq u.target_id t.target_id)) [
          | inl hit ↦
              let e : t.target_id ≡ u.target_id =
                sym ((str_eq_iff u.target_id t.target_id).0 hit) in
              inr (looked ∙ (rw (str_eq_refl tenant_id, hit) (ap some (sym (same u (inl refl) e)))))
          | inr miss ↦ elim h [
            | inl (inl e) ↦
                let hit : str_eq u.target_id t.target_id ≡ true = rw e (str_eq_refl u.target_id) in
                absurd (ground arith)
            | inl (inr i) ↦ inl i
            | inr found ↦ inr (looked ∙ (rw (str_eq_refl tenant_id, miss) found))
          ]
        ] in
      reschedule_lem ts noted t (λ v i e. same v (inr i) e) there

discarded :
    (key : Key) (keys : List Key)
    → some_of (same_key key) (keep (λ k. not (same_key key k)) keys) ≡ false
discarded key [] = refl
discarded key (k ∷ keys) = elim (Bool-cases (same_key key k)) [
  | inl same ↦ rw same (discarded key keys)
  | inr other ↦ rw (other, other) (discarded key keys)
]

caught_lem : (c : Config) (outcome : Result (Unit {0})) → caught c outcome ≡ ok tt
caught_lem c (ok done) = refl
caught_lem c (err failure) = refl

-- When the key of a group is not in flight and targets of one id have one interval, then after the
-- group has run, whether its round returned or raised, nothing is raised further, the world is what
-- the recoveries and the round made of it, the key is not in flight, and each target of the group is
-- due again after its interval and jitter.
pub run_group-rescheduled :
    (c : Config) (now : ℕ) (s : State) (tenant_id domain : String) (targets : List Target)
    → some_of (same_key (tenant_id, domain)) s.in_flight ≡ false
    → Consistent c now tenant_id targets
    → let ran = run_group c now s (tenant_id, domain) targets in
      (ran.1 ≡ ok tt)
      × (ran.0.world
          ≡ (c.run_round
              (tenant_id, domain)
              targets
              now
              (recover_all s.world tenant_id now targets)).0)
      × (some_of (same_key (tenant_id, domain)) ran.0.in_flight ≡ false)
      × ((t : Target)
          → In t targets
          → Dict.get ran.0.next_run (tenant_id, t.target_id) ≡ some (again c now tenant_id t))
unfolding run_group group_body group_finally
run_group-rescheduled c now s tenant_id domain targets idle consistent =
    let raised =
      (c.run_round (tenant_id, domain) targets now (recover_all s.world tenant_id now targets)).1 in
    (
      rw idle (caught_lem c raised),
      rw idle refl,
      rw idle (discarded (tenant_id, domain) ((tenant_id, domain) ∷ s.in_flight)),
      λ t i. rw idle (
          reschedule_lem c now tenant_id targets s.next_run t (λ u k e. consistent t u i k e)
            (inl i)),
    )
