-- ===== src/Scheduler/Alone.antt =====
-- src/aiops_apm/scheduler.py with src/aiops_apm/storage/lease.py: the ticks of two replicas within the
-- time to live of the lease that the first one got.
use aiops_apm_anomaly_detect.Prelude.{
  ℕ, ◌+◌, ◌<◌, ◌≤◌, ◌≡◌, refl, ap, subst, ◌∙◌, inl, inr, String, true, false, some, List, [], ◌∷◌,
  arith, Bool-cases, some_of, str_eq,
}
use aiops_apm_anomaly_detect.Prelude.Dict as Dict
use aiops_apm_anomaly_detect.Prelude.Dict.{string_key, get-put}
use aiops_apm_anomaly_detect.Errors.{Result, ok, err, >>=-eq-ok}
use aiops_apm_anomaly_detect.Storage.Lease.{Leases, LeaseEntry, lost, try_acquire, renew}
use aiops_apm_anomaly_detect.Storage.Targets.{Target, TargetStore, target_tenants}
use aiops_apm_anomaly_detect.Scheduler.{
  Key, State, Instants, Config, same_key, group_body, group_finally, run_group, run_groups,
  due_targets, groups_of, tick,
}

run_group-leases :
    (c : Config) (now : ℕ) (s : State) (key : Key) (targets : List Target)
    → (run_group c now s key targets).0.leases ≡ s.leases
unfolding run_group group_body group_finally
run_group-leases c now s (tenant_id, domain) targets =
    elim (Bool-cases (some_of (same_key (tenant_id, domain)) s.in_flight)) [
      | inl busy ↦ rw busy refl
      | inr idle ↦ rw idle refl
    ]

run_groups-leases :
    (c : Config) (now : ℕ) (s : State) (groups : List (Key × List Target))
    → (run_groups c now s groups).leases ≡ s.leases
unfolding run_groups
run_groups-leases c now s [] = refl
run_groups-leases c now s ((key, targets) ∷ groups) =
    run_groups-leases c now (run_group c now s key targets).0 groups
    ∙ run_group-leases c now s key targets

abbrev held : Config → ℕ → LeaseEntry
held c now = record { held_by = c.holder; expires_at = now + c.lease_ttl }

abbrev leases_of : Result (ℕ × State) → Leases
leases_of (err failure) = []
leases_of (ok (n, s)) = s.leases

refused_lem :
    (leases : Leases) (expiry later other_ttl : ℕ) (holder other : String)
    → Dict.get leases "scheduler" ≡ some (record { held_by = holder; expires_at = expiry })
    → str_eq holder other ≡ false
    → later < expiry
    → (try_acquire leases later "scheduler" other other_ttl).0 ≡ false
unfolding try_acquire
refused_lem leases expiry later other_ttl holder other entry different early = ground arith

module _ (c : Config) where
  acquired_lem :
      (leases : Leases) (now : ℕ)
      → (try_acquire leases now "scheduler" c.holder c.lease_ttl).0 ≡ true
      → Dict.get (try_acquire leases now "scheduler" c.holder c.lease_ttl).1 "scheduler"
        ≡ some (held c now)
  unfolding try_acquire
  acquired_lem leases now h = ground (arith, get-put leases "scheduler" "scheduler" (held c now))

  -- The replica has the lease to the time to live after the instant at the least.
  abbrev Holds : ℕ → Leases → Type 0
  Holds now leases =
      (expiry : ℕ) × (Dict.get leases "scheduler"
        ≡ some (record { held_by = c.holder; expires_at = expiry }))
      × (now + c.lease_ttl ≤ expiry)

  renewed_lem :
      (leases : Leases) (now later : ℕ)
      → now ≤ later
      → Dict.get leases "scheduler" ≡ some (held c now)
      → Holds now (renew leases later "scheduler" c.holder c.lease_ttl).1
  unfolding renew
  renewed_lem leases now later order h =
      elim (Bool-cases (lost (Dict.get leases "scheduler") later c.holder)) [
        | inl gone ↦ (now + c.lease_ttl, rw gone h, omega arith)
        | inr kept ↦ (
          later + c.lease_ttl,
          rw kept (get-put leases "scheduler" "scheduler" (held c later)),
          omega arith,
        )
      ]

  tick-Holds :
      (at : Instants) (s after : State) (store : TargetStore) (n : ℕ)
      → at.acquired ≤ at.renewed
      → (try_acquire s.leases at.acquired "scheduler" c.holder c.lease_ttl).0 ≡ true
      → tick c at s store ≡ ok (n, after)
      → Holds at.acquired after.leases
  unfolding tick
  tick-Holds at s after store n order acquired e =
      let taken = (try_acquire s.leases at.acquired "scheduler" c.holder c.lease_ttl).1 in
      let due = due_targets c at.now store (target_tenants store) s.next_run [] in
      let (found, got, returned) = >>=-eq-ok due _ (rw acquired at e) in
      let start = record s { leases = taken; next_run = found.1 } in
      let groups = groups_of c s.in_flight found.0 [] in
      let still : Dict.get (run_groups c at.now start groups).leases "scheduler"
          ≡ some (held c at.acquired) =
        rw (run_groups-leases c at.now start groups) (acquired_lem s.leases at.acquired acquired) in
      subst (Holds at.acquired) (ap leases_of returned)
        (renewed_lem (run_groups c at.now start groups).leases at.acquired at.renewed order still)

-- The store that a process left, as a process with its own next runs and groups in flight sees it.
abbrev pub seen_by : State → State → State
seen_by mine s = record s { next_run = mine.next_run; in_flight = mine.in_flight }

-- When a replica got the lease in a tick, a tick of a replica with another holder id, with whatever
-- next runs and groups in flight of its own, that asks for the lease before the time to live has
-- passed since the first one got it, runs no group and changes nothing.
pub tick-alone :
    (c other : Config) (at later : Instants) (s after mine : State) (store : TargetStore) (n : ℕ)
    → at.acquired ≤ at.renewed
    → (try_acquire s.leases at.acquired "scheduler" c.holder c.lease_ttl).0 ≡ true
    → tick c at s store ≡ ok (n, after)
    → str_eq c.holder other.holder ≡ false
    → later.acquired < at.acquired + c.lease_ttl
    → tick other later (seen_by mine after) store ≡ ok (0, seen_by mine after)
unfolding tick
tick-alone c other at later s after mine store n order acquired e different early =
    let (expiry, entry, late) = tick-Holds c at s after store n order acquired e in
    let refused : (try_acquire after.leases later.acquired "scheduler" other.holder
          other.lease_ttl).0
        ≡ false =
      refused_lem after.leases expiry later.acquired other.lease_ttl c.holder other.holder entry
        different (omega arith) in
    rw refused refl
