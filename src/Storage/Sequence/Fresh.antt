-- ===== src/Storage/Sequence/Fresh.antt =====
-- Lemmas on the numbers that src/aiops_apm/storage/sequence.py gives out on one day.
use aiops_apm_anomaly_detect.Prelude.{ℕ, ◌+◌, ◌≤◌, ◌<◌, ◌≡◌, String, arith, or_else}
use aiops_apm_anomaly_detect.Prelude.Dict as Dict
use aiops_apm_anomaly_detect.Prelude.Dict.{text_pair_key, get-put}
use aiops_apm_anomaly_detect.Storage.Sequence.{Counters, bump}

-- Counters that any calls, of any prefix on any day, lead to.
pub data Later (start : Counters) : Counters → Type 0 where
  here : Later start start
  call :
      {counters : Counters} (prefix seq_date : String)
      → Later start counters
      → Later start (bump counters prefix seq_date).1

abbrev last_of : Counters → String → String → ℕ
last_of counters prefix seq_date = or_else (Dict.get counters (prefix, seq_date)) 0

last_of-bump :
    (counters : Counters) (p d prefix seq_date : String)
    → last_of counters prefix seq_date ≤ last_of (bump counters p d).1 prefix seq_date
unfolding bump
last_of-bump counters p d prefix seq_date = ground (
  arith,
  text_pair_key.beq_iff (p, d) (prefix, seq_date),
  get-put counters (p, d) (prefix, seq_date) (or_else (Dict.get counters (p, d)) 0 + 1),
)

last_of-Later :
    {start counters : Counters} (prefix seq_date : String)
    → Later start counters
    → last_of start prefix seq_date ≤ last_of counters prefix seq_date
last_of-Later prefix seq_date Later.here = omega arith
last_of-Later prefix seq_date (Later.call {counters = c} p d r) =
    omega (arith, last_of-Later prefix seq_date r, last_of-bump c p d prefix seq_date)

last_of-bump_self :
    (counters : Counters) (prefix seq_date : String)
    → last_of (bump counters prefix seq_date).1 prefix seq_date ≡ (bump counters prefix seq_date).0
unfolding bump
last_of-bump_self counters prefix seq_date = ground (
  arith,
  text_pair_key.beq_iff (prefix, seq_date) (prefix, seq_date),
  get-put counters (prefix, seq_date) (prefix, seq_date)
      (or_else (Dict.get counters (prefix, seq_date)) 0 + 1),
)

bump-gt :
    (counters : Counters) (prefix seq_date : String)
    → last_of counters prefix seq_date < (bump counters prefix seq_date).0
unfolding bump
bump-gt counters prefix seq_date = omega arith

-- A number that a prefix gives out on a day is greater than each number that it gave out on that
-- day before, whatever other calls came between.
pub bump-increases :
    (start later : Counters) (prefix seq_date : String)
    → Later (bump start prefix seq_date).1 later
    → (bump start prefix seq_date).0 < (bump later prefix seq_date).0
bump-increases start later prefix seq_date r = omega (
  arith,
  last_of-bump_self start prefix seq_date,
  last_of-Later prefix seq_date r,
  bump-gt later prefix seq_date,
)
