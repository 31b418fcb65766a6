-- ===== src/Scheduler.antt =====
-- src/aiops_apm/scheduler.py. Groups of one tick run one after another here, in the order in which
-- they were formed; each is a group of its own tenant and domain.
pub mod Running
pub mod Orphans
pub mod Ticks
pub mod Alone
use aiops_apm_anomaly_detect.Prelude.{
  ℕ, ◌+◌, String, Bool, true, false, not, Option, none, some, List, [], ◌∷◌, ◌++◌, length, keep,
  some_of, or_else, leb, if◌then◌else◌, str_eq,
}
use aiops_apm_anomaly_detect.Prelude.Dict as Dict
use aiops_apm_anomaly_detect.Prelude.Dict.{
  string_key, text_pair_key, text_triple_key, text_triple_beq,
}
use aiops_apm_anomaly_detect.Errors.{Error, Result, ok, err, ◌>>=◌, ◌>>◌}
use aiops_apm_anomaly_detect.Models.Value.{Value}
use aiops_apm_anomaly_detect.Storage.Lease.{Leases, try_acquire, renew}
use aiops_apm_anomaly_detect.Storage.Rounds.{
  RoundRow, TargetRow, TargetRows, get_round, latest_target, update_status, update_target_status,
}
use aiops_apm_anomaly_detect.Storage.Targets.{Target, TargetStore, load_all_targets, target_tenants}
use aiops_apm_anomaly_detect.Storage.Watermarks as Watermarks
use aiops_apm_anomaly_detect.Storage.Watermarks.{Watermarks}
use aiops_apm_anomaly_detect.Poller.{Tables, no_update, no_round_update}

abbrev pub Key : Type 0
Key = String × String

-- What a round changes besides the scheduler's own state.
pub record World : Type 0 where
  pub tables : Tables
  pub watermarks : Watermarks

-- A process has its own `next_run` and `in_flight`; the leases and the world are those of the store,
-- which all processes share.
pub record State : Type 0 where
  pub next_run : List (Key × ℕ)
  pub in_flight : List Key
  pub leases : Leases
  pub world : World

-- The instants that a tick reads: at the lease, for the targets, and at the renewal.
pub record Instants : Type 0 where
  pub acquired : ℕ
  pub now : ℕ
  pub renewed : ℕ

-- `interval_sec` reads the interval of a schedule, 60 seconds if there is none, in the clock's unit;
-- `run_round` is the round that is run, with what it raised, if it did.
pub record Config : Type 0 where
  pub holder : String
  pub lease_ttl : ℕ
  pub interval_sec : Option Value → ℕ
  pub jitter : ℕ → ℕ
  pub run_round : Key → List Target → ℕ → World → World × Result (Unit {0})

abbrev pub interrupted_round : Tables → String → String → ℕ → Option RoundRow → Result Tables
unfolding update_status
interrupted_round s tenant_id round_id now none = ok s
interrupted_round s tenant_id round_id now (some row) =
    if str_eq row.status "running"
    then (update_status s.rounds tenant_id round_id "interrupted" now no_round_update >>= λ rounds.
        ok (record s { rounds = rounds }))
    else ok s

abbrev pub rolled_back : Watermarks → String → String → Option TargetRow → Result Watermarks
unfolding Watermarks.update
rolled_back marks tenant_id target_id none = ok marks
rolled_back marks tenant_id target_id (some row) = elim row.finished_at [
  | none ↦ ok marks
  | some t ↦ Watermarks.update marks tenant_id target_id t
]

abbrev pub recovered : World → String → String → ℕ → Option TargetRow → Result World
unfolding update_target_status get_round latest_target
recovered w tenant_id target_id now none = ok w
recovered w tenant_id target_id now (some orphan) = do
  targets ←
      update_target_status w.tables.targets tenant_id orphan.round_id target_id (record no_update {
        status = some "interrupted";
        finished_at = some now;
        error = some "orphan recovery";
      })
  round_row ← get_round w.tables.rounds tenant_id orphan.round_id
  tables ←
      interrupted_round (record w.tables { targets = targets }) tenant_id orphan.round_id now
        round_row
  last_ok ← latest_target tables.targets tenant_id target_id (some "ok")
  marks ← rolled_back w.watermarks tenant_id target_id last_ok
  ok (record { tables = tables; watermarks = marks })

unfoldable pub recover_orphan : World → String → String → ℕ → Result World
unfolding latest_target recovered
recover_orphan w tenant_id target_id now =
    latest_target w.tables.targets tenant_id target_id (some "running")
    >>= recovered w tenant_id target_id now

-- A recovery that fails is only logged.
abbrev pub or_before : World → Result World → World
or_before w (err failure) = w
or_before w (ok after) = after

unfoldable pub recover_all : World → String → ℕ → List Target → World
unfolding recover_orphan
recover_all w tenant_id now [] = w
recover_all w tenant_id now (t ∷ ts) =
    recover_all (or_before w (recover_orphan w tenant_id t.target_id now)) tenant_id now ts

abbrev pub same_key : Key → Key → Bool
same_key p q = text_pair_key.beq p q

module _ (c : Config) where
  abbrev pub interval_of : Target → ℕ
  unfolding Dict.get
  interval_of t = c.interval_sec (Dict.get t.schedule "interval_sec")

  -- The loop over the targets of one tenant.
  unfoldable pub due_of :
      ℕ
      → String
      → List Target
      → List (Key × ℕ)
      → List (String × Target)
      → List (String × Target) × List (Key × ℕ)
  unfolding Dict.get Dict.put
  due_of now tenant_id [] next_run due = (due, next_run)
  due_of now tenant_id (t ∷ ts) next_run due =
      let at = or_else (Dict.get next_run (tenant_id, t.target_id)) (now + interval_of t) in
      let noted : List (Key × ℕ) = elim (Dict.get next_run (tenant_id, t.target_id)) [
        | none ↦ Dict.put next_run (tenant_id, t.target_id) at
        | some n ↦ next_run
      ] in
      due_of now tenant_id ts noted (if leb at now then due ++ (tenant_id, t) ∷ [] else due)

  unfoldable pub due_targets :
      ℕ
      → TargetStore
      → List String
      → List (Key × ℕ)
      → List (String × Target)
      → Result (List (String × Target) × List (Key × ℕ))
  unfolding load_all_targets due_of
  due_targets now store [] next_run due = ok (due, next_run)
  due_targets now store (tenant_id ∷ tenants) next_run due = do
    ts ← load_all_targets store tenant_id
    let found = due_of now tenant_id ts next_run due
    due_targets now store tenants found.1 found.0

  -- The groups of the targets that are due, less those whose key is in flight.
  unfoldable pub groups_of :
      List Key → List (String × Target) → List (Key × List Target) → List (Key × List Target)
  unfolding Dict.get Dict.put
  groups_of in_flight [] groups = groups
  groups_of in_flight ((tenant_id, t) ∷ due) groups =
      let key : Key = (tenant_id, t.domain) in
      groups_of in_flight due (
        if some_of (same_key key) in_flight
        then groups
        else Dict.put groups key (or_else (Dict.get groups key) [] ++ t ∷ []))

  -- The `finally` part: the next run of each target.
  unfoldable pub reschedule : ℕ → String → List Target → List (Key × ℕ) → List (Key × ℕ)
  unfolding Dict.put
  reschedule now tenant_id [] next_run = next_run
  reschedule now tenant_id (t ∷ ts) next_run = reschedule now tenant_id ts (
      Dict.put next_run (tenant_id, t.target_id) (now + (interval_of t + c.jitter (interval_of t))))

  -- The body of the `try`: the recoveries, each of which catches what it raises, and the round.
  unfoldable pub group_body : ℕ → State → Key → List Target → State × Result (Unit {0})
  unfolding recover_all
  group_body now s (tenant_id, domain) targets =
      let (world, outcome) =
        c.run_round (tenant_id, domain) targets now (recover_all s.world tenant_id now targets) in
      (record s { world = world }, outcome)

  -- `except Exception`: what the round raised is logged.
  abbrev pub caught : Result (Unit {0}) → Result (Unit {0})
  caught (ok done) = ok done
  caught (err failure) = ok tt

  -- The `finally` part; what was not caught passes it by.
  unfoldable pub group_finally :
      ℕ → Key → List Target → State × Result (Unit {0}) → State × Result (Unit {0})
  unfolding reschedule
  group_finally now (tenant_id, domain) targets (s, outcome) = (
    record s {
      in_flight = keep (λ k. not (same_key (tenant_id, domain) k)) s.in_flight;
      next_run = reschedule now tenant_id targets s.next_run;
    },
    outcome,
  )

  unfoldable pub run_group : ℕ → State → Key → List Target → State × Result (Unit {0})
  unfolding group_body group_finally caught
  run_group now s key targets =
      if some_of (same_key key) s.in_flight
      then (s, ok tt)
      else (let started = record s { in_flight = key ∷ s.in_flight } in
          let (after, outcome) = group_body now started key targets in
          group_finally now key targets (after, caught outcome))

  unfoldable pub run_groups : ℕ → State → List (Key × List Target) → State
  unfolding run_group
  run_groups now s [] = s
  run_groups now s ((key, targets) ∷ groups) = run_groups now (run_group now s key targets).0 groups

  abbrev renewed : ℕ → State → State
  unfolding renew
  renewed at s = record s { leases = (renew s.leases at "scheduler" c.holder c.lease_ttl).1 }

  abbrev ticked : Instants → State → TargetStore → Result (ℕ × State)
  unfolding due_targets groups_of run_groups target_tenants renew
  ticked at s store = do
    (due, next_run) ← due_targets at.now store (target_tenants store) s.next_run []
    let groups = groups_of s.in_flight due []
    ok (
      length groups,
      renewed at.renewed (run_groups at.now (record s { next_run = next_run }) groups),
    )

  unfoldable pub tick : Instants → State → TargetStore → Result (ℕ × State)
  unfolding try_acquire ticked
  tick at s store =
      let acquired = try_acquire s.leases at.acquired "scheduler" c.holder c.lease_ttl in
      if acquired.0 then ticked at (record s { leases = acquired.1 }) store else ok (0, s)
