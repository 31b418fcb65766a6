-- ===== src/Pipeline/Grouping/Passes.antt =====
-- Lemmas on the passes over logs and over metrics of src/aiops_apm/pipeline/grouping.py.
use aiops_apm_anomaly_detect.Prelude.{
  ℕ, ◌<◌, ◌≡◌, refl, sym, ap, subst, inl, inr, String, Option, none, some, List, [], ◌∷◌, In, All,
  ◌==◌, ==_iff, Bool-cases,
}
use aiops_apm_anomaly_detect.Prelude.Dict.{get, string_key}
use aiops_apm_anomaly_detect.Models.Anomaly.{Anomaly, MetricAnomaly, LogAnomaly}
use aiops_apm_anomaly_detect.Pipeline.Grouping.{
  Linking, link, link_traces, union_logs, anchored, union_metrics, link_found,
}
use aiops_apm_anomaly_detect.Pipeline.Grouping.Connected.{LogAt, MetricAt}
use aiops_apm_anomaly_detect.Pipeline.Grouping.Linking.{
  Equivalence, State, Grows, Known, Recorded, Passed, Recorded-Grows, link-Passed,
  link_found-Passed,
}

module _ (n : ℕ) (R : ℕ → ℕ → Type 0) (q : Equivalence R n) where
  -- The loop over the trace ids of one anomaly.
  module _ (K : String → ℕ → Type 0) (keyed : (k : String) (i j : ℕ) → K k i → K k j → R i j) where
    link_traces-Passed :
        (tids : List String) (idx : ℕ) (l : Linking) (s : State n R l.0)
        → Known K n l.1
        → idx < n
        → ((t : String) → In t tids → K t idx)
        → (r : Passed n R K s.rep l.1 (link_traces tids idx l)) × ((t : String)
            → In t tids
            → Recorded r.state.rep (link_traces tids idx l).1 t idx)
    unfolding link_traces
    link_traces-Passed [] idx l s known h k = (
      record { state = s; known = known; grows = λ i j e. e; keeps = λ j i r. r },
      λ t m. elim m [ ],
    )
    link_traces-Passed (tid ∷ tids) idx l s known h k =
        let (r, first) = link-Passed n R q K keyed tid idx s known h (k tid (inl refl)) in
        let (r', rest) =
          link_traces-Passed tids idx (link tid idx l) r.state r.known h (λ t m. k t (inr m)) in
        (
          record {
            state = r'.state;
            known = r'.known;
            grows = λ i j e. r'.grows i j (r.grows i j e);
            keeps = λ j i e. r'.keeps j i (r.keeps j i e);
          },
          λ t m. elim m [
            | inl e ↦
                subst (λ u. Recorded r'.state.rep (link_traces tids idx (link tid idx l)).1 u idx)
                  (sym e) (r'.keeps tid idx first)
            | inr m' ↦ rest t m'
          ],
        )

-- What a pass over the logs has recorded of one of them.
pub record LogRecorded (rep : ℕ → ℕ) (by_signature by_trace : List (String × ℕ)) (i : ℕ)
    (a : LogAnomaly) : Type 0 where
  pub signature : Recorded rep by_signature a.signature i
  pub traces : (t : String) → In t a.trace_ids → Recorded rep by_trace t i

module _ (xs : List Anomaly) where
  abbrev pub SignatureAt : String → ℕ → Type 0
  SignatureAt k i = (a : LogAnomaly) × LogAt xs i a × (a.signature ≡ k)

  abbrev pub TraceAt : String → ℕ → Type 0
  TraceAt k i = (a : LogAnomaly) × LogAt xs i a × In k a.trace_ids

module _ (xs : List Anomaly) (n : ℕ) (R : ℕ → ℕ → Type 0) (q : Equivalence R n)
    (same_signature : (k : String) (i j : ℕ) → SignatureAt xs k i → SignatureAt xs k j → R i j)
    (same_trace : (k : String) (i j : ℕ) → TraceAt xs k i → TraceAt xs k j → R i j) where
  pub record LogsPassed (rep : ℕ → ℕ) (d e : List (String × ℕ)) (logs : List (ℕ × LogAnomaly))
      (p : List ℕ) (d' e' : List (String × ℕ)) : Type 0 where
    pub state : State n R p
    pub grows : Grows rep state.rep
    pub keeps_signature : (k : String) (i : ℕ) → Recorded rep d k i → Recorded state.rep d' k i
    pub keeps_trace : (k : String) (i : ℕ) → Recorded rep e k i → Recorded state.rep e' k i
    pub recorded : (m : ℕ × LogAnomaly) → In m logs → LogRecorded state.rep d' e' m.0 m.1

  pub union_logs-Passed :
      (logs : List (ℕ × LogAnomaly)) (p : List ℕ) (d e : List (String × ℕ)) (s : State n R p)
      → Known (SignatureAt xs) n d
      → Known (TraceAt xs) n e
      → All (λ m. (m.0 < n) × LogAt xs m.0 m.1) logs
      → LogsPassed s.rep d e logs
          (union_logs logs p d e).0
          (union_logs logs p d e).1
          (union_logs logs p d e).2
  unfolding union_logs
  union_logs-Passed [] p d e s kd ke placed = record {
    state = s;
    grows = λ i j h. h;
    keeps_signature = λ k i r. r;
    keeps_trace = λ k i r. r;
    recorded = λ m i. elim i [ ];
  }
  union_logs-Passed ((idx, a) ∷ logs) p d e s kd ke (here, placed) =
      let (r, by_sig) =
        link-Passed n R q (SignatureAt xs) same_signature {l = (p, d)} a.signature idx s kd here.0
          (a, here.1, refl) in
      let (t, by_tid) =
        link_traces-Passed n R q (TraceAt xs) same_trace a.trace_ids idx
          ((link a.signature idx (p, d)).0, e) r.state ke here.0 (λ tid m. (a, here.1, m)) in
      let l1 = link a.signature idx (p, d) in
      let l2 = link_traces a.trace_ids idx (l1.0, e) in
      let rest = union_logs-Passed logs l2.0 l1.1 l2.1 t.state r.known t.known placed in
      let grows =
        λ (i j : ℕ) (h : s.rep i ≡ s.rep j). rest.grows i j (t.grows i j (r.grows i j h)) in
      record {
        state = rest.state;
        grows = grows;
        keeps_signature =
            λ k i h. rest.keeps_signature k i (Recorded-Grows k i t.grows (r.keeps k i h));
        keeps_trace = λ k i h. rest.keeps_trace k i (t.keeps k i (Recorded-Grows k i r.grows h));
        recorded = λ m m_in. elim m_in [
          | inl same ↦
              subst
                (λ (u : ℕ × LogAnomaly).
                  LogRecorded rest.state.rep (union_logs logs l2.0 l1.1 l2.1).1
                    (union_logs logs l2.0 l1.1 l2.1).2 u.0 u.1)
                (sym same)
                (record {
                  signature =
                      rest.keeps_signature a.signature idx
                        (Recorded-Grows a.signature idx t.grows by_sig);
                  traces = λ tid tid_in. rest.keeps_trace tid idx (by_tid tid tid_in);
                })
          | inr later ↦ rest.recorded m later
        ];
      }

-- The service of a metric anomaly is the key of the second pass.
abbrev pub ServiceAt : List Anomaly → String → ℕ → Type 0
ServiceAt xs k i = (m : MetricAnomaly) × MetricAt xs i m × (m.service ≡ k)

module _ (xs : List Anomaly) (n : ℕ) (R : ℕ → ℕ → Type 0) (q : Equivalence R n)
    (same_service : (k : String) (i j : ℕ) → ServiceAt xs k i → ServiceAt xs k j → R i j) where
  -- `setdefault` and `union` do what a keyed step does, but for the union of an item with itself.
  anchored-Passed :
      {p : List ℕ} {d : List (String × ℕ)} (o : Option ℕ) (key : String) (idx : ℕ) (s : State n R p)
      → Known (ServiceAt xs) n d
      → get d key ≡ o
      → idx < n
      → ServiceAt xs key idx
      → (r : Passed n R (ServiceAt xs) s.rep d (anchored o key idx p d)) × Recorded r.state.rep
          (anchored o key idx p d).1
          key
          idx
  unfolding anchored link_found
  anchored-Passed none key idx s known e h k =
      link_found-Passed n R q (ServiceAt xs) same_service none key idx s known e h k
  anchored-Passed {p} {d} (some anchor) key idx s known e h k = elim (Bool-cases (anchor == idx)) [
    | inl same ↦ rw same (
      record { state = s; known = known; grows = λ i j e. e; keeps = λ j i r. r },
      record { first = anchor; found = e; same = ap s.rep ((==_iff _ _).0 same) },
    )
    | inr other ↦
        rw other
          (link_found-Passed n R q (ServiceAt xs) same_service (some anchor) key idx s known e h k)
  ]

  pub record MetricsPassed (rep : ℕ → ℕ) (d : List (String × ℕ))
      (metrics : List (ℕ × MetricAnomaly)) (l : Linking) : Type 0 where
    pub state : State n R l.0
    pub grows : Grows rep state.rep
    pub keeps : (k : String) (i : ℕ) → Recorded rep d k i → Recorded state.rep l.1 k i
    pub recorded : (m : ℕ × MetricAnomaly) → In m metrics → Recorded state.rep l.1 m.1.service m.0

  pub union_metrics-Passed :
      (metrics : List (ℕ × MetricAnomaly)) (p : List ℕ) (d : List (String × ℕ)) (s : State n R p)
      → Known (ServiceAt xs) n d
      → All (λ m. (m.0 < n) × MetricAt xs m.0 m.1) metrics
      → MetricsPassed s.rep d metrics (union_metrics metrics p d)
  unfolding union_metrics
  union_metrics-Passed [] p d s known placed = record {
    state = s;
    grows = λ i j h. h;
    keeps = λ k i r. r;
    recorded = λ m i. elim i [ ];
  }
  union_metrics-Passed ((idx, m) ∷ metrics) p d s known (here, placed) =
      let (r, first) =
        anchored-Passed (get d m.service) m.service idx s known refl here.0 (m, here.1, refl) in
      let l = anchored (get d m.service) m.service idx p d in
      let rest = union_metrics-Passed metrics l.0 l.1 r.state r.known placed in
      record {
        state = rest.state;
        grows = λ i j h. rest.grows i j (r.grows i j h);
        keeps = λ k i h. rest.keeps k i (r.keeps k i h);
        recorded = λ u u_in. elim u_in [
          | inl same ↦
              subst
                (λ (v : ℕ × MetricAnomaly).
                  Recorded rest.state.rep (union_metrics metrics l.0 l.1).1 v.1.service v.0)
                (sym same) (rest.keeps m.service idx first)
          | inr later ↦ rest.recorded u later
        ];
      }
