-- ===== src/Storage/Lease.antt =====
-- src/aiops_apm/storage/lease.py, InMemoryLeaseStore. The clock is an argument of each operation;
-- a time to live is in the clock's unit.
pub mod Exclusion
pub mod Postgres
use aiops_apm_anomaly_detect.Prelude.{
  ℕ, ◌+◌, String, Bool, true, false, not, ◌&&◌, ◌||◌, Option, none, some, List, [], ◌∷◌, ltb, leb,
  if◌then◌else◌, str_eq,
}
use aiops_apm_anomaly_detect.Prelude.Dict as Dict
use aiops_apm_anomaly_detect.Prelude.Dict.{string_key}

pub record LeaseEntry : Type 0 where
  pub held_by : String
  pub expires_at : ℕ

abbrev pub Leases : Type 0
Leases = List (String × LeaseEntry)

-- `entry is not None and entry["expires_at"] > now and entry["holder"] != holder`
abbrev pub taken : Option LeaseEntry → ℕ → String → Bool
taken none now holder = false
taken (some entry) now holder = ltb now entry.expires_at && not (str_eq entry.held_by holder)

-- `entry is None or entry["holder"] != holder or entry["expires_at"] <= now`
abbrev pub lost : Option LeaseEntry → ℕ → String → Bool
lost none now holder = true
lost (some entry) now holder = not (str_eq entry.held_by holder) || leb entry.expires_at now

unfoldable pub try_acquire : Leases → ℕ → String → String → ℕ → Bool × Leases
unfolding Dict.get Dict.put
try_acquire leases now lease_name holder ttl =
    if taken (Dict.get leases lease_name) now holder
    then (false, leases)
    else (true, Dict.put leases lease_name (record { held_by = holder; expires_at = now + ttl }))

unfoldable pub renew : Leases → ℕ → String → String → ℕ → Bool × Leases
unfolding Dict.get Dict.put
renew leases now lease_name holder ttl =
    if lost (Dict.get leases lease_name) now holder
    then (false, leases)
    else (true, Dict.put leases lease_name (record { held_by = holder; expires_at = now + ttl }))

abbrev pub is_held_by : Option LeaseEntry → String → Bool
is_held_by none holder = false
is_held_by (some entry) holder = str_eq entry.held_by holder

unfoldable pub release : Leases → String → String → Leases
unfolding Dict.get Dict.remove
release leases lease_name holder =
    if is_held_by (Dict.get leases lease_name) holder then Dict.remove leases lease_name else leases

abbrev entry_holder : Option LeaseEntry → Option String
entry_holder none = none
entry_holder (some entry) = some entry.held_by

unfoldable pub holder : Leases → String → Option String
unfolding Dict.get
holder leases lease_name = entry_holder (Dict.get leases lease_name)
