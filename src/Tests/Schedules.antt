-- ===== src/Tests/Schedules.antt =====
-- Concrete inputs for the theorems on src/aiops_apm/scheduler.py.
use aiops_apm_anomaly_detect.Prelude.{
  ℕ, ◌≡◌, refl, String, false, some, [], ◌∷◌, arith, In, some_of,
}
use aiops_apm_anomaly_detect.Prelude.Dict as Dict
use aiops_apm_anomaly_detect.Prelude.Dict.{string_key, text_pair_key, text_triple_key}
use aiops_apm_anomaly_detect.Errors.{Error, ok, err}
use aiops_apm_anomaly_detect.Storage.Lease.{try_acquire, renew}
use aiops_apm_anomaly_detect.Storage.Targets.{Target, TargetStore, target_tenants}
use aiops_apm_anomaly_detect.Poller.Rows.{opened_row}
use aiops_apm_anomaly_detect.Scheduler.{
  World, State, Instants, Config, same_key, due_targets, groups_of, run_groups, run_group,
  recover_all, tick,
}
use aiops_apm_anomaly_detect.Scheduler.Alone.{seen_by, tick-alone}
use aiops_apm_anomaly_detect.Scheduler.Running.{running}
use aiops_apm_anomaly_detect.Scheduler.Orphans.{recover_times, recover_orphan-ends}
use aiops_apm_anomaly_detect.Scheduler.Ticks.{again, run_group-rescheduled}
use aiops_apm_anomaly_detect.Tests.Rounds.{target}

abbrev replica : String → Config
replica holder = record {
  holder = holder;
  lease_ttl = 30;
  interval_sec = λ v. 60;
  jitter = λ n. 6;
  run_round = λ key targets now w. (w, ok tt);
}

abbrev empty : World
empty = record { tables = record { rounds = []; targets = [] }; watermarks = [] }

abbrev start : State
start = record { next_run = []; in_flight = []; leases = []; world = empty }

abbrev no_targets : TargetStore
no_targets = record { rows = []; next_id = 1 }

abbrev ticked : State
ticked = record start { leases = ("scheduler", record { held_by = "one"; expires_at = 130 }) ∷ [] }

abbrev at : ℕ → Instants
at n = record { acquired = n; now = n; renewed = n }

-- What the second process knows.
abbrev mine : State
mine = record start { next_run = (("t", "MT-0001"), 105) ∷ [] }

tick-alone_example :
    tick (replica "two") (at 110) (seen_by mine ticked) no_targets ≡ ok (0, seen_by mine ticked)
unfolding tick try_acquire renew due_targets groups_of run_groups target_tenants Dict.get Dict.put
tick-alone_example =
    tick-alone (replica "one") (replica "two") (at 100) (at 110) start ticked mine no_targets 0
      (omega arith) refl refl refl (omega arith)

-- A round that raises.
abbrev broken : Config
broken = record (replica "one") {
  run_round = λ key targets now w. (w, err (Error.value_error "unreachable"));
}

run_group-rescheduled_example :
    let ran = run_group broken 100 start ("t", "d") (target ∷ []) in
    (ran.1 ≡ ok tt)
    × (ran.0.world
        ≡ (broken.run_round
            ("t", "d")
            (target ∷ [])
            100
            (recover_all start.world "t" 100 (target ∷ []))).0)
    × (some_of (same_key ("t", "d")) ran.0.in_flight ≡ false)
    × ((t : Target)
        → In t (target ∷ [])
        → Dict.get ran.0.next_run ("t", t.target_id) ≡ some (again broken 100 "t" t))
unfolding Dict.get
run_group-rescheduled_example =
    run_group-rescheduled broken 100 start "t" "d" (target ∷ []) refl (λ t u i k e. refl)

abbrev crashed : World
crashed = record empty {
  tables = record {
    rounds = [];
    targets = (("t", "trace-1", "MT-0001"), opened_row "t" "trace-1" "MT-0001" 100) ∷ [];
  };
}

recover_orphan-ends_example :
    running "t" "MT-0001" (recover_times 1 crashed "t" "MT-0001" 200).tables.targets ≡ 0
unfolding running Dict.get
recover_orphan-ends_example =
    recover_orphan-ends 1 crashed "t" "MT-0001" 200 ((refl, tt), (refl, tt)) refl (omega arith)
