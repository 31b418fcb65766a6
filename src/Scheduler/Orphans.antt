-- ===== src/Scheduler/Orphans.antt =====
-- Lemmas on _recover_orphan of src/aiops_apm/scheduler.py called several times.
use aiops_apm_anomaly_detect.Prelude.{
  ℕ, zero, suc, ◌+◌, ◌≤◌, ◌≡◌, refl, ◌⊎◌, inl, inr, String, false, ◌&&◌, Option-cases, Option, none,
  some, map, arith, Bool-cases, keep, leb, str_eq, str_eq_iff,
}
use aiops_apm_anomaly_detect.Prelude.Dict as Dict
use aiops_apm_anomaly_detect.Prelude.Dict.{
  text_pair_key, text_triple_key, get-put, DistinctKeys, put-DistinctKeys, get-tail,
}
use aiops_apm_anomaly_detect.Prelude.Sort.{sort_by}
use aiops_apm_anomaly_detect.Errors.{ok}
use aiops_apm_anomaly_detect.Storage.Rounds.{
  RoundRow, updated_round, TargetKey, TargetRow, TargetRows, latest_target, first_row,
  updated_target, update_target_status, update_status, get_round,
}
use aiops_apm_anomaly_detect.Storage.Watermarks as Watermarks
use aiops_apm_anomaly_detect.Storage.Watermarks.{Watermarks}
use aiops_apm_anomaly_detect.Poller.{Tables, no_update, no_round_update}
use aiops_apm_anomaly_detect.Scheduler.{
  World, recover_orphan, recovered, interrupted_round, rolled_back, or_before,
}
use aiops_apm_anomaly_detect.Scheduler.Running.{
  KeyedTargets, put-OwnKey, is_running, running, running-put, Latest, latest_target_lem,
}

module _ (tenant_id target_id : String) where
  module _ (now : ℕ) (named : str_eq tenant_id "" ≡ false) where
    interrupted_round_lem :
        (s : Tables) (round_id : String) (row : Option RoundRow)
        → (after : Tables) × (interrupted_round s tenant_id round_id now row ≡ ok after)
          × (after.targets ≡ s.targets)
    unfolding update_status
    interrupted_round_lem s round_id none = (s, refl, refl)
    interrupted_round_lem s round_id (some row) = elim (Bool-cases (str_eq row.status "running")) [
      | inr ended ↦ (s, rw ended refl, refl)
      | inl runs ↦ elim (Option-cases (Dict.get s.rounds (tenant_id, round_id))) [
        | inl missing ↦ (s, rw (runs, named) (rw missing refl), refl)
        | inr (r, found) ↦ (
          record s {
            rounds =
                Dict.put s.rounds (tenant_id, round_id)
                  (updated_round r "interrupted" now no_round_update);
          },
          rw (runs, named) (rw found refl),
          refl,
        )
      ]
    ]

    rolled_back_lem :
        (marks : Watermarks) (row : Option TargetRow)
        → (after : Watermarks) × (rolled_back marks tenant_id target_id row ≡ ok after)
    unfolding Watermarks.update
    rolled_back_lem marks none = (marks, refl)
    rolled_back_lem marks (some row) = elim (Option-cases row.finished_at) [
      | inl open_end ↦ (marks, rw open_end refl)
      | inr (t, ended) ↦ (Dict.put marks (tenant_id, target_id) t, rw ended (rw named refl))
    ]

    abbrev closed : TargetRow → TargetRow
    closed orphan = updated_target orphan (record no_update {
      status = some "interrupted";
      finished_at = some now;
      error = some "orphan recovery";
    })

    abbrev newest_ok : TargetRows → Option TargetRow
    unfolding sort_by
    newest_ok rows = first_row (
        sort_by (λ r s. leb s.started_at r.started_at)
          (keep (λ r. str_eq r.status "ok")
            (keep (λ r. str_eq r.tenant_id tenant_id && str_eq r.target_id target_id)
              (map (λ e. e.1) rows))))

    -- After a recovery, one row less runs.
    abbrev Recovered : World → World → Type 0
    Recovered w after =
        KeyedTargets after.tables.targets
        × (((running tenant_id target_id w.tables.targets ≡ 0)
              × (running tenant_id target_id after.tables.targets ≡ 0))
            ⊎ (running tenant_id target_id after.tables.targets + 1
                ≡ running tenant_id target_id w.tables.targets))

    recovered_lem :
        (w : World) (found : Option TargetRow)
        → KeyedTargets w.tables.targets
        → Latest tenant_id target_id w.tables.targets found
        → (after : World) × (recovered w tenant_id target_id now found ≡ ok after)
          × Recovered w after
    unfolding update_target_status get_round latest_target
    recovered_lem w none k holds = (w, refl, (k, inl (holds, holds)))
    recovered_lem w (some orphan) k (there, runs) =
        let key : TargetKey = (tenant_id, orphan.round_id, target_id) in
        let targets : TargetRows = Dict.put w.tables.targets key (closed orphan) in
        let (tables, made, same) =
          interrupted_round_lem (record w.tables { targets = targets }) orphan.round_id
            (Dict.get w.tables.rounds (tenant_id, orphan.round_id)) in
        let (marks, moved) = rolled_back_lem w.watermarks (newest_ok tables.targets) in
        let ended : is_running tenant_id target_id (closed orphan) ≡ false = ground arith in
        let own_tenant : tenant_id ≡ orphan.tenant_id =
          ground (arith, str_eq_iff orphan.tenant_id tenant_id) in
        let own_target : target_id ≡ orphan.target_id =
          ground (arith, str_eq_iff orphan.target_id target_id) in
        let own : key ≡ (orphan.tenant_id, orphan.round_id, orphan.target_id) =
          rw (← own_tenant, ← own_target) refl in
        (
          record { tables = tables; watermarks = marks },
          rw (named, there) (rw made (rw moved refl)),
          (
            (
              rw same (put-DistinctKeys w.tables.targets key (closed orphan) k.0),
              rw same (put-OwnKey w.tables.targets key (closed orphan) own k.1),
            ),
            inr (
                rw same (
                  running-put tenant_id target_id w.tables.targets key orphan (closed orphan) there
                    runs ended)),
          ),
        )

    recover_orphan_lem :
        (w : World)
        → KeyedTargets w.tables.targets
        → (after : World) × (recover_orphan w tenant_id target_id now ≡ ok after)
          × Recovered w after
    unfolding recover_orphan
    recover_orphan_lem w k =
        let (found, latest, holds) =
          latest_target_lem tenant_id target_id w.tables.targets k named in
        let (after, returned, done) = recovered_lem w found k holds in
        (after, rw latest returned, done)

-- The recoveries of a target at the start of its next ticks.
unfoldable pub recover_times : ℕ → World → String → String → ℕ → World
recover_times zero w tenant_id target_id now = w
recover_times (suc n) w tenant_id target_id now =
    recover_times n (or_before w (recover_orphan w tenant_id target_id now)) tenant_id target_id now

-- When each row of a target stands once under its own key and the tenant is named, as many
-- recoveries as the target has rows that a crash left running leave none of them running.
pub recover_orphan-ends :
    (n : ℕ) (w : World) (tenant_id target_id : String) (now : ℕ)
    → KeyedTargets w.tables.targets
    → str_eq tenant_id "" ≡ false
    → running tenant_id target_id w.tables.targets ≤ n
    → running tenant_id target_id (recover_times n w tenant_id target_id now).tables.targets ≡ 0
unfolding recover_times
recover_orphan-ends zero w tenant_id target_id now k named few = omega arith
recover_orphan-ends (suc n) w tenant_id target_id now k named few =
    let (after, returned, (k', done)) = recover_orphan_lem tenant_id target_id now named w k in
    let fewer : running tenant_id target_id after.tables.targets ≤ n = ground arith in
    rw (returned, recover_times)
      (recover_orphan-ends n after tenant_id target_id now k' named fewer)
