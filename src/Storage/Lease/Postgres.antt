-- ===== src/Storage/Lease/Postgres.antt =====
-- src/aiops_apm/storage/lease.py, PGLeaseStore: what its statements do to the rows of the table, at
-- the time that `CURRENT_TIMESTAMP(3)` gives.
use aiops_apm_anomaly_detect.Prelude.{
  ℕ, ◌+◌, ◌≡◌, ◌≢◌, refl, ap, inl, inr, String, Bool, true, false, ◌&&◌, Option, none, some, [],
  ◌∷◌, arith, Bool-cases, ltb, if◌then◌else◌, str_eq, str_eq_iff,
}
use aiops_apm_anomaly_detect.Prelude.Dict as Dict
use aiops_apm_anomaly_detect.Prelude.Dict.{string_key}
use aiops_apm_anomaly_detect.Storage.Lease.{LeaseEntry, Leases, try_acquire, is_held_by}

-- The row after `INSERT ... ON CONFLICT DO UPDATE`: the two `CASE`s of the statement.
abbrev pub upserted : Option LeaseEntry → ℕ → String → ℕ → LeaseEntry
upserted none now holder ttl = record { held_by = holder; expires_at = now + ttl }
upserted (some entry) now holder ttl = record {
  held_by = if ltb entry.expires_at now then holder else entry.held_by;
  expires_at = if ltb entry.expires_at now then now + ttl else entry.expires_at;
}

unfoldable pub pg_try_acquire : Leases → ℕ → String → String → ℕ → Bool × Leases
unfolding Dict.get Dict.put
pg_try_acquire leases now lease_name holder ttl =
    let row = upserted (Dict.get leases lease_name) now holder ttl in
    (str_eq row.held_by holder, Dict.put leases lease_name row)

-- `WHERE lease_name=%s AND holder=%s AND expires_at > CURRENT_TIMESTAMP(3)`
abbrev pub is_live : Option LeaseEntry → ℕ → String → Bool
is_live none now holder = false
is_live (some entry) now holder = str_eq entry.held_by holder && ltb now entry.expires_at

unfoldable pub pg_renew : Leases → ℕ → String → String → ℕ → Bool × Leases
unfolding Dict.get Dict.put
pg_renew leases now lease_name holder ttl =
    if is_live (Dict.get leases lease_name) now holder
    then (true, Dict.put leases lease_name (record { held_by = holder; expires_at = now + ttl }))
    else (false, leases)

unfoldable pub pg_release : Leases → String → String → Leases
unfolding Dict.get Dict.remove
pg_release leases lease_name holder =
    if is_held_by (Dict.get leases lease_name) holder then Dict.remove leases lease_name else leases

put-same : (d : Leases) (k : String) (v : LeaseEntry) → Dict.get d k ≡ some v → Dict.put d k v ≡ d
unfolding Dict.get Dict.put
put-same [] k v h = absurd (ground arith)
put-same ((j, w) ∷ d) k v h = elim (Bool-cases (str_eq j k)) [
  | inl e ↦ let here : some w ≡ some v = rw e at h in let same : w ≡ v = cc in rw (e, same) refl
  | inr e ↦ rw e (ap (λ r. (j, w) ∷ r) (put-same d k v (rw e at h)))
]

-- When another replica has the lease, and not to this very instant, the statement of the table and
-- the store in memory give one answer and one state.
pub pg_try_acquire-try_acquire :
    (leases : Leases) (now : ℕ) (lease_name holder : String) (ttl : ℕ) (entry : LeaseEntry)
    → Dict.get leases lease_name ≡ some entry
    → entry.held_by ≢ holder
    → entry.expires_at ≢ now
    → pg_try_acquire leases now lease_name holder ttl ≡ try_acquire leases now lease_name holder ttl
unfolding pg_try_acquire try_acquire
pg_try_acquire-try_acquire leases now lease_name holder ttl entry found other apart = ground (
  arith,
  str_eq_iff entry.held_by holder,
  str_eq_iff holder holder,
  put-same leases lease_name entry found,
)
