-- ===== src/Storage/Lease/Exclusion.antt =====
-- Lemmas on sequences of calls of other replicas to src/aiops_apm/storage/lease.py.
use aiops_apm_anomaly_detect.Prelude.{
  ℕ, ◌+◌, ◌<◌, ◌≡◌, ◌≢◌, String, Bool, true, false, some, arith, str_eq_iff,
}
use aiops_apm_anomaly_detect.Prelude.Dict as Dict
use aiops_apm_anomaly_detect.Prelude.Dict.{string_key, get-put, get-remove_ne}
use aiops_apm_anomaly_detect.Storage.Lease.{Leases, try_acquire, renew, release}

-- A call of the store, by one replica, at one time.
pub data Call : Type 0 where
  acquire : (now : ℕ) (lease_name holder : String) (ttl : ℕ) → Call
  renewal : (now : ℕ) (lease_name holder : String) (ttl : ℕ) → Call
  drop : (now : ℕ) (lease_name holder : String) → Call

abbrev pub time_of : Call → ℕ
time_of (acquire now name holder ttl) = now
time_of (renewal now name holder ttl) = now
time_of (drop now name holder) = now

abbrev pub caller : Call → String
caller (acquire now name holder ttl) = holder
caller (renewal now name holder ttl) = holder
caller (drop now name holder) = holder

-- The store after a call, and its answer.
unfoldable pub call : Leases → Call → Bool × Leases
unfolding try_acquire renew release
call leases (acquire now name holder ttl) = try_acquire leases now name holder ttl
call leases (renewal now name holder ttl) = renew leases now name holder ttl
call leases (drop now name holder) = (true, release leases name holder)

-- Stores that calls of others than `holder`, made before `limit`, lead to.
pub data Others (holder : String) (limit : ℕ) (start : Leases) : Leases → Type 0 where
  here : Others holder limit start start
  step :
      {leases : Leases} (c : Call)
      → Others holder limit start leases
      → caller c ≢ holder
      → time_of c < limit
      → Others holder limit start (call leases c).1

module _ (name owner : String) (limit : ℕ) where
  abbrev Held : Leases → Type 0
  Held leases = Dict.get leases name ≡ some (record { held_by = owner; expires_at = limit })

  call-Held :
      (leases : Leases) (c : Call)
      → caller c ≢ owner
      → time_of c < limit
      → Held leases
      → Held (call leases c).1
  unfolding call
  call-Held leases (acquire now n other ttl) ne before h = ground (
    arith,
    str_eq_iff n name,
    str_eq_iff owner other,
    get-put leases n name (record { held_by = other; expires_at = now + ttl }),
  )
  call-Held leases (renewal now n other ttl) ne before h = ground (
    arith,
    str_eq_iff n name,
    str_eq_iff owner other,
    get-put leases n name (record { held_by = other; expires_at = now + ttl }),
  )
  call-Held leases (drop now n other) ne before h =
      ground (arith, str_eq_iff n name, str_eq_iff owner other, get-remove_ne leases n name)

  calls-Held : {start leases : Leases} → Others owner limit start leases → Held start → Held leases
  calls-Held Others.here h = h
  calls-Held (Others.step {leases = l} c r ne before) h = call-Held l c ne before (calls-Held r h)

  refused :
      (leases : Leases) (now ttl : ℕ) (other : String)
      → other ≢ owner
      → now < limit
      → Held leases
      → try_acquire leases now name other ttl ≡ (false, leases)
  unfolding try_acquire
  refused leases now ttl other ne before h = ground (arith, str_eq_iff owner other)

-- A holder keeps its lease, with its expiry, through any calls of other replicas that come before
-- the expiry, and each attempt of another replica to acquire it before then is refused and changes
-- nothing.
pub lease-exclusive :
    (start leases : Leases) (name owner : String) (limit : ℕ)
    → Dict.get start name ≡ some (record { held_by = owner; expires_at = limit })
    → Others owner limit start leases
    → (Dict.get leases name ≡ some (record { held_by = owner; expires_at = limit }))
      × ((now ttl : ℕ) (other : String)
          → other ≢ owner
          → now < limit
          → try_acquire leases now name other ttl ≡ (false, leases))
lease-exclusive start leases name owner limit h calls =
    let held = calls-Held name owner limit calls h in
    (held, λ now ttl other ne before. refused name owner limit leases now ttl other ne before held)
