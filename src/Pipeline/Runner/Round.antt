-- ===== src/Pipeline/Runner/Round.antt =====
-- Lemmas on the persistence store over a whole round of src/aiops_apm/pipeline/runner.py.
use mathlib.Core.List.{Permᴰ}
use mathlib.Core.Option as Option
use mathlib.Core.Logic.{∥∥₁_elim}
use native.Mathlib.Nat.{ℕ_set}
use aiops_apm_anomaly_detect.Prelude.{
  ℕ, suc, ◌+◌, ◌≡◌, refl, ap, ◌∙◌, inl, inr, String, true, false, Option, none, some, List, [], ◌∷◌,
  ◌++◌, map, flatten, arith, Bool-cases, Option-cases, length, str_eq,
}
use aiops_apm_anomaly_detect.Errors.{ok, >>=-ok}
use aiops_apm_anomaly_detect.Prelude.Dict as Dict
use aiops_apm_anomaly_detect.Prelude.Dict.{text_pair_key, text_triple_key}
use aiops_apm_anomaly_detect.Prelude.Text.{join}
use aiops_apm_anomaly_detect.Models.Value.{Value}
use aiops_apm_anomaly_detect.Models.Anomaly.{Anomaly, logs}
use aiops_apm_anomaly_detect.Models.Record.{ProblemRecord, record_group_key}
use aiops_apm_anomaly_detect.Pipeline.Grouping.{
  Group, enumerate, group_services, representative_service,
}
use aiops_apm_anomaly_detect.Pipeline.Correlate.{l2_correlate}
use aiops_apm_anomaly_detect.Pipeline.Verify.{rounds_of}
use aiops_apm_anomaly_detect.Pipeline.Verify.Persistence.{
  rounds, occurrences, l3_verify-persistence,
}
use aiops_apm_anomaly_detect.Pipeline.Emit.{
  Env, RoundContext, Stores, Findings, emit, emit_passed, trace_entry, round_target_ids,
  log_trace_ids, targets_of, new_record, degraded_entry, verify_context,
}
use aiops_apm_anomaly_detect.Models.Signal.{Signal}
use aiops_apm_anomaly_detect.Pipeline.Suppress.{Suppressed, l0_suppress}
use aiops_apm_anomaly_detect.Pipeline.Detect.{l1_detect}
use aiops_apm_anomaly_detect.Pipeline.Grouping.Partition.{group_anomalies-partition}
use aiops_apm_anomaly_detect.Storage.DetectionState.{
  StateKey, PersistenceState, StateRows, sweep, sweep_rows, swept,
}
use aiops_apm_anomaly_detect.Storage.DetectionState.Laws.{get-sweep_rows}
use aiops_apm_anomaly_detect.Storage.Rounds.{get_round}
use aiops_apm_anomaly_detect.Storage.Records.{
  Rows, write_or_append, written, superset_candidate, find_row,
}
use aiops_apm_anomaly_detect.Storage.Sequence.{next_id}
use aiops_apm_anomaly_detect.Pipeline.Runner.{
  Progress, run_group, run_groups, run_domain, DomainResult,
}

module _ (env : Env) (ctx : RoundContext) (named : str_eq ctx.tenant_id "" ≡ false) where
  round_target_ids-ok : (v : List String) × (round_target_ids ctx ≡ ok v)
  unfolding round_target_ids get_round
  round_target_ids-ok = elim (Option-cases ctx.rounds_store) [
    | inl e ↦ ([], rw e refl)
    | inr (rows, e) ↦ (targets_of (Dict.get rows (ctx.tenant_id, ctx.trace_id)), rw (e, named) refl)
  ]

  trace_entry-ok : (ids : List String) → (v : List Value) × (trace_entry ctx ids ≡ ok v)
  unfolding trace_entry
  trace_entry-ok [] = ([], refl)
  trace_entry-ok (t ∷ ts) = let (v, e) = round_target_ids-ok in (_, >>=-ok _ e)

  written_ok :
      (rows : Rows) (r : ProblemRecord)
      → (rows' : Rows) × (write_or_append env.hashing rows ctx.tenant_id r ≡ ok rows')
  unfolding write_or_append
  written_ok rows r = (
    written env.hashing (superset_candidate env.hashing r rows ctx.tenant_id)
        (find_row rows ctx.tenant_id (record_group_key env.hashing r)) rows r,
    rw named refl,
  )

  emit-passed :
      (service : String) (group : List Anomaly) (found : Findings) (rep : Option String)
      (s : Stores)
      → found.verification.passed ≡ true
      → emit env ctx service group found rep s ≡ emit_passed env ctx service group found rep s
  unfolding emit
  emit-passed service group found rep s e = rw e refl

  -- For a tenant with a name `emit` returns, and leaves the persistence store as it is.
  emit-ok :
      (service : String) (group : List Anomaly) (found : Findings) (rep : Option String)
      (s : Stores)
      → (recs : List ProblemRecord) × (s' : Stores) × (emit env ctx service group found rep s
          ≡ ok (recs, s'))
        × (s'.detection ≡ s.detection)
  unfolding emit emit_passed write_or_append
  emit-ok service group found rep s = elim (Bool-cases found.verification.passed) [
    | inr e ↦ ([], s, rw e refl, refl)
    | inl e ↦
        let (v, t) = trace_entry-ok (log_trace_ids (logs group) []) in
        let (id, counters) = next_id env.show_padded s.counters env.seq_date ctx.domain in
        let (rows, w) =
          written_ok s.records
            (new_record env ctx service group found rep (degraded_entry ctx ++ v) id) in
        (_, _, emit-passed service group found rep s e ∙ >>=-ok _ t ∙ >>=-ok _ w, refl)
  ]

  run_group-ok :
      (group : List Anomaly) (p : Progress)
      → (p' : Progress) × (run_group env ctx group p ≡ ok p')
        × ((key : String)
            → rounds env.hashing (verify_context ctx) p'.stores.detection key
              ≡ rounds env.hashing (verify_context ctx) p.stores.detection key
                + occurrences env.hashing (verify_context ctx) key group)
  unfolding run_group
  run_group-ok group p =
      let (corr, change_related, recent_change) =
        l2_correlate ctx.domain_config.correlation ctx.changes group in
      let (v, detection, seen, verified, counts, passes, sees) =
        l3_verify-persistence env.hashing (verify_context ctx) (representative_service group) group
          corr.related p.stores.detection p.seen_keys named in
      let found : Findings = record {
        correlation = corr;
        change_related = change_related;
        recent_change = recent_change;
        verification = v;
      } in
      let (recs, s, emitted, same) =
        emit-ok (join "," (group_services group)) group found (some (representative_service group))
          (record p.stores { detection = detection }) in
      (
        _,
        (>>=-ok _ verified ∙ >>=-ok _ emitted),
        λ key. ap (λ rows. rounds env.hashing (verify_context ctx) rows key) same ∙ counts key,
      )

  abbrev members : List (ℕ × Anomaly) → List Anomaly
  members g = map (λ m. m.1) g

  abbrev occurs : String → List Anomaly → ℕ
  occurs key group = occurrences env.hashing (verify_context ctx) key group

  abbrev counted : Stores → String → ℕ
  counted s key = rounds env.hashing (verify_context ctx) s.detection key

  occurs-append :
      (key : String) (g l : List (ℕ × Anomaly))
      → occurs key (members (g ++ l)) ≡ occurs key (members g) + occurs key (members l)
  occurs-append key [] l = omega arith
  occurs-append key (m ∷ g) l = omega (arith, occurs-append key g l)

  occurs-permᴰ :
      {g l : List (ℕ × Anomaly)} (key : String)
      → Permᴰ g l
      → occurs key (members g) ≡ occurs key (members l)
  occurs-permᴰ key Permᴰ.nil = refl
  occurs-permᴰ key (Permᴰ.cons {b = b} e p) = rw e (omega (arith, occurs-permᴰ key p))
  occurs-permᴰ key (Permᴰ.swap {a' = a'} {b' = b'} {l = l} e f) = rw (e, f) (omega arith)
  occurs-permᴰ key (Permᴰ.trans p q) = occurs-permᴰ key p ∙ occurs-permᴰ key q

  members-enumerate : (i : ℕ) (xs : List Anomaly) → members (enumerate i xs) ≡ xs
  unfolding enumerate
  members-enumerate i [] = refl
  members-enumerate i (a ∷ xs) = ap (λ r. a ∷ r) (members-enumerate (suc i) xs)

  run_groups-ok :
      (gs : List Group) (p : Progress)
      → (p' : Progress) × (run_groups env ctx gs p ≡ ok p')
        × ((key : String)
            → counted p'.stores key ≡ counted p.stores key + occurs key (members (flatten gs)))
  unfolding run_groups flatten
  run_groups-ok [] p = (p, refl, λ key. omega arith)
  run_groups-ok (g ∷ gs) p =
      let (p1, run, first) = run_group-ok (members g) p in
      let (p2, rest, later) = run_groups-ok gs p1 in
      (
        p2,
        >>=-ok _ run ∙ rest,
        λ key. omega (arith, first key, later key, occurs-append key g (flatten gs)),
      )

  rounds_of-swept :
      (seen : List String) (k : StateKey) (o : Option PersistenceState)
      → rounds_of (Option.map (swept ctx.tenant_id ctx.domain seen k) o) ≡ rounds_of o
  rounds_of-swept seen k none = refl
  rounds_of-swept seen (t, d, k) (some row) = ground arith

  counted-swept :
      (rows : StateRows) (seen : List String) (key : String)
      → rounds env.hashing (verify_context ctx) (sweep_rows rows ctx.tenant_id ctx.domain seen) key
        ≡ rounds env.hashing (verify_context ctx) rows key
  counted-swept rows seen key =
      ap rounds_of
        (get-sweep_rows rows ctx.tenant_id ctx.domain seen (ctx.tenant_id, ctx.domain, key))
      ∙ rounds_of-swept seen (ctx.tenant_id, ctx.domain, key)
          (Dict.get rows (ctx.tenant_id, ctx.domain, key))

-- A round of a tenant with a name, whose suppression and detection return, returns. Each anomaly
-- key of the domain has then one more counted round per detected anomaly with that key, and every
-- other key has as many as before: neither the grouping nor the sweep loses or repeats a count.
pub run_domain-persistence :
    (env : Env) (ctx : RoundContext) (signals kept : List Signal) (suppressed : List Suppressed)
    (anomalies : List Anomaly) (s : Stores)
    → str_eq ctx.tenant_id "" ≡ false
    → l0_suppress ctx.domain_config.suppressors ctx.registry ctx.suppress signals
      ≡ ok (suppressed, kept)
    → l1_detect ctx.domain_config.detectors ctx.registry kept [] ≡ ok anomalies
    → (result : DomainResult) × (s' : Stores) × (run_domain env ctx signals s ≡ ok (result, s'))
      × (result.anomaly_count ≡ length anomalies)
      × ((key : String)
          → rounds env.hashing (verify_context ctx) s'.detection key
            ≡ rounds env.hashing (verify_context ctx) s.detection key
              + occurrences env.hashing (verify_context ctx) key anomalies)
unfolding run_domain sweep
run_domain-persistence env ctx signals kept suppressed anomalies s named l0 l1 =
    let (gs, grouped, perm) = group_anomalies-partition anomalies in
    let start : Progress = record { records = []; by_service = []; stores = s; seen_keys = [] } in
    let (p, run, counts) = run_groups-ok env ctx named gs start in
    let swept : sweep p.stores.detection ctx.tenant_id ctx.domain p.seen_keys
        ≡ ok (sweep_rows p.stores.detection ctx.tenant_id ctx.domain p.seen_keys) =
      rw named refl in
    (
      _,
      _,
      >>=-ok _ l0 ∙ >>=-ok _ l1 ∙ >>=-ok _ grouped ∙ >>=-ok _ run ∙ >>=-ok _ swept,
      refl,
      λ key.
          counted-swept env ctx named p.stores.detection p.seen_keys key
          ∙ counts key
          ∙ ap (λ n. counted env ctx named s key + n)
              (∥∥₁_elim perm (ℕ_set _ _) (occurs-permᴰ env ctx named key)
                ∙ ap (occurs env ctx named key) (members-enumerate env ctx named 0 anomalies)),
    )
