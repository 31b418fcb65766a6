-- ===== src/Poller/Closing.antt =====
-- Lemmas on the rows of a round of src/aiops_apm/poller.py and of its targets at its end.
use aiops_apm_anomaly_detect.Prelude.{
  ℕ, ◌≡◌, ◌≢◌, ◌↔◌, ◌⊎◌, refl, sym, ap, subst, ◌∙◌, inl, inr, String, true, false, Option,
  Option-cases, is_nonempty, map-In, str_eq_iff, none, some, List, [], ◌∷◌, arith, In, In-map, map,
  Bool-cases, some_of, str_eq, str_eq_refl,
}
use aiops_apm_anomaly_detect.Prelude.Dict as Dict
use aiops_apm_anomaly_detect.Prelude.Dict.{text_pair_key, get-put}
use aiops_apm_anomaly_detect.Errors.{Result, ok, err}
use aiops_apm_anomaly_detect.Pipeline.Emit.{Stores}
use aiops_apm_anomaly_detect.Pipeline.Runner.{DomainResult}
use aiops_apm_anomaly_detect.Storage.Rounds.{
  RoundRow, RoundRows, RoundUpdate, TargetRows, create_round, update_status, updated_round,
}
use aiops_apm_anomaly_detect.Storage.Targets.{Target}
use aiops_apm_anomaly_detect.Poller.{
  Collected, Tables, RoundArgs, create_targets, settle_targets, collected_update, attributed,
  attribute_targets, is_failure, collect_phase, close_phase, run_round_with, run_round, funnel,
  degraded_of, outcome_of, success_update, no_round_update, FunnelArgs,
}
use aiops_apm_anomaly_detect.Poller.Rows.{
  row_at, Opened, Settled, Opened-updated, Settling-Settled, Neutral-Settled, Settled-Opened,
  collected-Settling, update_lem, create_lem, update_keeps,
}

module _ (tenant_id trace_id : String) (named : str_eq tenant_id "" ≡ false) where
  -- The loops over the targets return, and this is what they leave.
  record Created (rows after : TargetRows) (ts : List Target) : Type 0 where
    opens : (t : Target) → In t ts → Opened (row_at after tenant_id trace_id t.target_id)
    keeps :
        (j : String)
        → Opened (row_at rows tenant_id trace_id j)
        → Opened (row_at after tenant_id trace_id j)

  create_targets-Created :
      (rows : TargetRows) (now : ℕ) (ts : List Target)
      → (after : TargetRows) × (create_targets rows tenant_id trace_id now ts ≡ ok after)
        × Created rows after ts
  unfolding create_targets
  create_targets-Created rows now [] =
      (rows, refl, record { opens = λ t i. elim i [ ]; keeps = λ j h. h })
  create_targets-Created rows now (t ∷ ts) =
      let (one, made, opened) = create_lem tenant_id trace_id named rows t.target_id now in
      let (after, returned, rest) = create_targets-Created one now ts in
      (
        after,
        rw made returned,
        record {
          opens = λ t' i. elim i [
            | inl e ↦ rw e (rest.keeps t.target_id (opened t.target_id (inr refl)))
            | inr i' ↦ rest.opens t' i'
          ];
          keeps = λ j h. rest.keeps j (opened j (inl h));
        },
      )

  -- Results of one target id have one error.
  abbrev Same : List Collected → Type 0
  Same cs = (c d : Collected) → In c cs → In d cs → c.target_id ≡ d.target_id → c.error ≡ d.error

  record Collection (rows after : TargetRows) (cs : List Collected) : Type 0 where
    settles :
        (c : Collected)
        → In c cs
        → Opened (row_at rows tenant_id trace_id c.target_id)
        → Settled c.error (row_at after tenant_id trace_id c.target_id)
    stays :
        (j : String) (error : Option String)
        → ((c : Collected) → In c cs → c.target_id ≡ j → c.error ≡ error)
        → Settled error (row_at rows tenant_id trace_id j)
        → Settled error (row_at after tenant_id trace_id j)

  settle_targets-Collection :
      (rows : TargetRows) (ended : ℕ) (cs : List Collected)
      → Same cs
      → (after : TargetRows) × (settle_targets rows tenant_id trace_id ended cs ≡ ok after)
        × Collection rows after cs
  unfolding settle_targets
  settle_targets-Collection rows ended [] same =
      (rows, refl, record { settles = λ c i h. elim i [ ]; stays = λ j error agree h. h })
  settle_targets-Collection rows ended (c ∷ cs) same =
      let u = collected_update ended c c.error in
      let (one, made, looked) = update_lem tenant_id trace_id named rows c.target_id u in
      let (after, returned, rest) =
        settle_targets-Collection one ended cs (λ d f i k e. same d f (inr i) (inr k) e) in
      let settling = Settling-Settled c.error u (collected-Settling ended c) in
      let keeps = λ (j : String).
        update_keeps tenant_id trace_id named Opened Opened u (λ o h. h) (Opened-updated u) rows
          c.target_id j in
      (
        after,
        rw made returned,
        record {
          settles = λ d i h. elim i [
            | inl e ↦
                let there : Opened (row_at rows tenant_id trace_id c.target_id) =
                  subst (λ (x : Collected). Opened (row_at rows tenant_id trace_id x.target_id)) e
                    h in
                let made_settled : Settled c.error (row_at one tenant_id trace_id c.target_id) =
                  rw (looked c.target_id) (
                    rw (str_eq_refl c.target_id)
                      (settling (row_at rows tenant_id trace_id c.target_id) there)) in
                let last : Settled c.error (row_at after tenant_id trace_id c.target_id) =
                  rest.stays c.target_id c.error (λ f k e. same f c (inr k) (inl refl) e)
                    made_settled in
                rw e last
            | inr i' ↦ rest.settles d i' (keeps d.target_id h)
          ];
          stays = λ j error agree h.
              rest.stays j error (λ d k e. agree d (inr k) e)
                (elim (Bool-cases (str_eq c.target_id j)) [
                  | inr miss ↦ rw (looked j, miss) h
                  | inl hit ↦
                      let is_error : c.error ≡ error =
                        agree c (inl refl) ((str_eq_iff c.target_id j).0 hit) in
                      let opened = Settled-Opened error (row_at rows tenant_id trace_id j) h in
                      rw (looked j, hit, ← is_error)
                        (settling (row_at rows tenant_id trace_id j) opened)
                ]);
        },
      )

  attribute_targets-Settled :
      (rows : TargetRows) (result : DomainResult) (cs : List Collected) (ts : List Target)
      → (after : TargetRows) × (attribute_targets rows tenant_id trace_id result cs ts ≡ ok after)
        × ((j : String) (error : Option String)
            → Settled error (row_at rows tenant_id trace_id j)
            → Settled error (row_at after tenant_id trace_id j))
  unfolding attribute_targets
  attribute_targets-Settled rows result cs [] = (rows, refl, λ j error h. h)
  attribute_targets-Settled rows result cs (t ∷ ts) =
      elim (Bool-cases (some_of (is_failure t.target_id) cs)) [
        | inl skipped ↦
            let (after, returned, rest) = attribute_targets-Settled rows result cs ts in
            (after, rw skipped returned, rest)
        | inr kept ↦
            let u = attributed result t in
            let (one, made, looked) = update_lem tenant_id trace_id named rows t.target_id u in
            let (after, returned, rest) = attribute_targets-Settled one result cs ts in
            (
              after,
              rw kept (rw made returned),
              λ j error h. rest j error (
                  update_keeps tenant_id trace_id named (Settled error) (Settled error) u (λ o k. k)
                    (Neutral-Settled error u (refl, refl)) rows t.target_id j h),
            )
      ]

-- How a round ends, by what the collectors raised and what the funnel returned or raised.
abbrev pub Ending : List Collected → Result (DomainResult × Stores) → String → Type 0
Ending cs (err failure) status = status ≡ "failed"
Ending cs (ok result) status =
    ((status ≡ "success") × ((c : Collected) → In c cs → c.error ≡ none))
    ⊎ ((status ≡ "partial") × ((c : Collected) × In c cs × (c.error ≢ none)))

degraded_of-cases :
    (cs : List Collected)
    → ((degraded_of cs ≡ []) × ((c : Collected) → In c cs → c.error ≡ none))
      ⊎ ((is_nonempty (degraded_of cs) ≡ true) × ((c : Collected) × In c cs × (c.error ≢ none)))
unfolding degraded_of
degraded_of-cases [] = inl (refl, λ c i. elim i [ ])
degraded_of-cases (c ∷ cs) = elim (Option-cases c.error) [
  | inr (failure, e) ↦ inr (rw e refl, (c, inl refl, ground arith))
  | inl clean ↦ elim (degraded_of-cases cs) [
    | inl (none_failed, all) ↦
        inl (rw (clean, none_failed) refl, λ d i. elim i [ inl e ↦ rw e clean | inr k ↦ all d k ])
    | inr (some_failed, (d, i, h)) ↦ inr (rw clean some_failed, (d, inr i, h))
  ]
]

-- `completed` has the results of `cs` in another order.
Ending-outcome_of :
    (cs completed : List Collected) (result : DomainResult × Stores)
    → ((c : Collected) → In c completed ↔ In c cs)
    → Ending cs (ok result) (outcome_of (degraded_of completed))
Ending-outcome_of cs completed result same = elim (degraded_of-cases completed) [
  | inl (none_failed, all) ↦ rw none_failed (inl (refl, λ c i. all c ((same c).1 i)))
  | inr (some_failed, (c, i, h)) ↦ rw some_failed (inr (refl, (c, (same c).0 i, h)))
]

-- The round is closed as it ended, and the row of each target is settled.
abbrev pub Closed :
    RoundArgs → (Target → Collected) → Result (DomainResult × Stores) → Tables → Type 0
Closed a one result s =
    ((row : RoundRow) × (Dict.get s.rounds (a.tenant_id, a.trace_id) ≡ some row)
      × Ending (map one a.targets) result row.status
      × (row.finished_at ≡ some a.clock.ended_at))
    × ((t : Target)
        → In t a.targets
        → Settled (one t).error (row_at s.targets a.tenant_id a.trace_id t.target_id))

-- The row that `create_round` writes.
abbrev opened_round : RoundArgs → RoundRow
opened_round a = record {
  round_id = a.trace_id;
  tenant_id = a.tenant_id;
  domain = a.domain;
  started_at = a.now;
  finished_at = none;
  status = "running";
  target_ids = map (λ t. t.target_id) a.targets;
  signals_count = 0;
  anomaly_count = 0;
  record_count = 0;
  suppressed_count = 0;
  degraded_sources = [];
  timeline = [];
}

module _ (a : RoundArgs) (named : str_eq a.tenant_id "" ≡ false) where
  -- An update of the round's own row, where it is there, returns and is found.
  update_status_lem :
      (rows : RoundRows) (row : RoundRow) (status : String) (u : RoundUpdate)
      → Dict.get rows (a.tenant_id, a.trace_id) ≡ some row
      → (after : RoundRows) × (update_status rows a.tenant_id a.trace_id status a.clock.ended_at u
          ≡ ok after)
        × (Dict.get after (a.tenant_id, a.trace_id)
            ≡ some (updated_round row status a.clock.ended_at u))
  unfolding update_status
  update_status_lem rows row status u found =
      let new = updated_round row status a.clock.ended_at u in
      (
        Dict.put rows (a.tenant_id, a.trace_id) new,
        rw (named, found) refl,
        get-put rows (a.tenant_id, a.trace_id) (a.tenant_id, a.trace_id) new
            ∙ (rw (str_eq_refl a.tenant_id, str_eq_refl a.trace_id) refl),
      )

  Same-map :
      (one : Target → Collected)
      → ((t : Target) → (one t).target_id ≡ t.target_id)
      → ((t u : Target)
          → In t a.targets
          → In u a.targets
          → t.target_id ≡ u.target_id
          → (one t).error ≡ (one u).error)
      → Same a.tenant_id a.trace_id named (map one a.targets)
  Same-map one ids same c d i k e =
      let (t, ti, tc) = map-In one a.targets c i in
      let (u, ui, ud) = map-In one a.targets d k in
      let at : t.target_id ≡ u.target_id =
        sym (ids t)
        ∙ ap (λ (x : Collected). x.target_id) (sym tc)
        ∙ e
        ∙ ap (λ (x : Collected). x.target_id) ud
        ∙ ids u in
      rw (tc, ud) (same t u ti ui at)

  collect_phase_lem :
      (one : Target → Collected) (s : Tables)
      → ((t : Target) → (one t).target_id ≡ t.target_id)
      → Same a.tenant_id a.trace_id named (map one a.targets)
      → (collected : Tables) × (collect_phase a (map one a.targets) s ≡ ok collected)
        × ((row : RoundRow) × (Dict.get collected.rounds (a.tenant_id, a.trace_id) ≡ some row))
        × ((t : Target)
            → In t a.targets
            → Settled (one t).error (row_at collected.targets a.tenant_id a.trace_id t.target_id))
  unfolding collect_phase create_round
  collect_phase_lem one s ids same =
      let (opened, made, created) =
        create_targets-Created a.tenant_id a.trace_id named s.targets a.now a.targets in
      let (settled, returned, collection) =
        settle_targets-Collection a.tenant_id a.trace_id named opened a.clock.collect_ended
          (map one a.targets) same in
      let rounds : RoundRows = Dict.put s.rounds (a.tenant_id, a.trace_id) (opened_round a) in
      (
        record { rounds = rounds; targets = settled },
        rw named (rw made (rw returned refl)),
        (
          opened_round a,
          get-put s.rounds (a.tenant_id, a.trace_id) (a.tenant_id, a.trace_id) (opened_round a)
              ∙ (rw (str_eq_refl a.tenant_id, str_eq_refl a.trace_id) refl),
        ),
        λ t i.
            let there : Opened (row_at opened a.tenant_id a.trace_id (one t).target_id) =
              rw (ids t) (created.opens t i) in
            subst (λ j. Settled (one t).error (row_at settled a.tenant_id a.trace_id j)) (ids t)
              (collection.settles (one t) (In-map one a.targets t i) there),
      )

  close_phase_lem :
      (one : Target → Collected) (completed : List Collected) (s : Tables) (row : RoundRow)
      (result : Result (DomainResult × Stores))
      → ((c : Collected) → In c completed ↔ In c (map one a.targets))
      → Dict.get s.rounds (a.tenant_id, a.trace_id) ≡ some row
      → ((t : Target)
          → In t a.targets
          → Settled (one t).error (row_at s.targets a.tenant_id a.trace_id t.target_id))
      → (after : Tables) × (close_phase a (map one a.targets) (degraded_of completed) s result
          ≡ ok after)
        × Closed a one result after
  unfolding close_phase
  close_phase_lem one completed s row (err failure) reordered found settled =
      let (rounds, returned, there) =
        update_status_lem s.rounds row "failed"
          (record no_round_update { degraded_sources = some (degraded_of completed) }) found in
      (record s { rounds = rounds }, rw returned refl, ((_, there, refl, refl), settled))
  close_phase_lem one completed s row (ok (result, stores)) reordered found settled =
      let cs = map one a.targets in
      let degraded = degraded_of completed in
      let (targets, written, stays) =
        attribute_targets-Settled a.tenant_id a.trace_id named s.targets result cs a.targets in
      let (rounds, returned, there) =
        update_status_lem s.rounds row (outcome_of degraded) (success_update cs degraded result)
          found in
      (
        record { rounds = rounds; targets = targets },
        rw written (rw returned refl),
        (
          (_, there, Ending-outcome_of cs completed (result, stores) reordered, refl),
          λ t i. stays t.target_id (one t).error (settled t i),
        ),
      )

run_round_with_lem :
    (fn : Tables → Result (DomainResult × Stores)) (a : RoundArgs) (cs : List Collected)
    (degraded : List String) (s collected closed : Tables)
    → collect_phase a cs s ≡ ok collected
    → close_phase a cs degraded collected (fn collected) ≡ ok closed
    → run_round_with fn a cs degraded s ≡ (closed, fn collected)
unfolding run_round_with
run_round_with_lem fn a cs degraded s collected closed first second = ground arith

-- When the tenant is named, each collector's result is of its target, results of one target id have
-- one error, and `completed` has the results of the collectors in another order, then whatever the
-- collectors and the funnel do: the round ends with what the funnel gave or raised; its row is
-- finished, as "failed" when the funnel raised, else as "partial" when a collector raised and as
-- "success" when none did; and the row of each target is finished, as "failed" when its collector
-- raised and as "ok" when it did not.
pub run_round-Closed :
    (f : FunnelArgs) (a : RoundArgs) (one : Target → Collected) (completed : List Collected)
    (s : Tables)
    → str_eq a.tenant_id "" ≡ false
    → ((t : Target) → (one t).target_id ≡ t.target_id)
    → ((t u : Target)
        → In t a.targets
        → In u a.targets
        → t.target_id ≡ u.target_id
        → (one t).error ≡ (one u).error)
    → ((c : Collected) → In c completed ↔ In c (map one a.targets))
    → let cs = map one a.targets in
      let ran = run_round f a cs completed s in
      (collected : Tables) × (ran.1 ≡ funnel f a cs (degraded_of completed) collected)
      × Closed a one ran.1 ran.0
unfolding run_round
run_round-Closed f a one completed s named ids same reordered =
    let cs = map one a.targets in
    let degraded = degraded_of completed in
    let (collected, first, opened, settled) =
      collect_phase_lem a named one s ids (Same-map a named one ids same) in
    let (row, found) = opened in
    let (closed, second, done) =
      close_phase_lem a named one completed collected row (funnel f a cs degraded collected)
        reordered found settled in
    let ran : run_round f a cs completed s ≡ (closed, funnel f a cs degraded collected) =
      run_round_with_lem (funnel f a cs degraded) a cs degraded s collected closed first second in
    (collected, rw ran refl, rw ran done)
