-- ===== src/Pipeline/Grouping/Connect.antt =====
-- Lemmas on `connect` of src/aiops_apm/pipeline/grouping.py and the relation `Connected`.
use aiops_apm_anomaly_detect.Prelude.{
  ℕ, ◌<◌, ◌≡◌, refl, sym, ap, subst, transport, transport⁻¹, ◌∙◌, inl, inr, String, some, List, [],
  ◌∷◌, In, arith, length,
}
use aiops_apm_anomaly_detect.Prelude.Dict.{get, string_key}
use aiops_apm_anomaly_detect.Models.Anomaly.{Anomaly, MetricAnomaly, LogAnomaly}
use aiops_apm_anomaly_detect.Pipeline.Grouping.{
  union_logs, union_metrics, log_roots, attach_metrics, connect,
}
use aiops_apm_anomaly_detect.Pipeline.Grouping.UnionFind.{singletons}
use aiops_apm_anomaly_detect.Pipeline.Grouping.Connected.{
  LogAt, MetricAt, Joined, Connected, OneLogGroup,
}
use aiops_apm_anomaly_detect.Pipeline.Grouping.Linking.{
  State, Known-empty, Recorded-same, initial, rep_lt, rep-rep,
}
use aiops_apm_anomaly_detect.Pipeline.Grouping.Placed.{
  get_elem?-lt, logs_of, metrics_of, logs_placed, metrics_placed, LogAt-In, MetricAt-In,
}
use aiops_apm_anomaly_detect.Pipeline.Grouping.Passes.{
  SignatureAt, TraceAt, ServiceAt, LogsPassed, union_logs-Passed, MetricsPassed,
  union_metrics-Passed,
}
use aiops_apm_anomaly_detect.Pipeline.Grouping.Attach.{
  HasRoot, RootsSound, RootsPassed, log_roots-Passed, AttachPassed, attach_metrics-Passed,
}
use aiops_apm_anomaly_detect.Pipeline.Grouping.Distinct.{NoDup}
use aiops_apm_anomaly_detect.Pipeline.Grouping.Classes.{
  Apart, Apart-Equivalence, Apart-logs, Apart-metrics, Connected_of_Apart, Connected-Equivalence,
}

only_one : (x : ℕ) (rs : List ℕ) → NoDup rs → In x rs → ((r : ℕ) → In r rs → r ≡ x) → rs ≡ x ∷ []
only_one x [] d i h = elim i [ ]
only_one x (r ∷ []) d i h = ap (λ (u : ℕ). u ∷ []) (h r (inl refl))
only_one x (r ∷ t ∷ rs) d i h = absurd (d.0 (inl (h r (inl refl) ∙ sym (h t (inr (inl refl))))))

module _ (xs : List Anomaly) where
  abbrev n : ℕ
  n = length xs

  same_signature : (k : String) (i j : ℕ) → SignatureAt xs k i → SignatureAt xs k j → Apart xs i j
  same_signature k i j (a, ha, ea) (b, hb, eb) =
      transport⁻¹ (Apart-logs xs i j a b ha hb) (Joined.same_signature a b ha hb (ea ∙ sym eb))

  same_trace : (k : String) (i j : ℕ) → TraceAt xs k i → TraceAt xs k j → Apart xs i j
  same_trace k i j (a, ha, ea) (b, hb, eb) =
      transport⁻¹ (Apart-logs xs i j a b ha hb) (Joined.shared_trace a b k ha hb ea eb)

  same_service : (k : String) (i j : ℕ) → ServiceAt xs k i → ServiceAt xs k j → Apart xs i j
  same_service k i j (a, ha, ea) (b, hb, eb) =
      transport⁻¹ (Apart-metrics xs i j a b ha hb) (ea ∙ sym eb)

  -- The states after the first three passes.
  abbrev after_logs : List ℕ × List (String × ℕ) × List (String × ℕ)
  after_logs = union_logs (logs_of xs) (singletons n) [] []

  abbrev after_metrics : List ℕ × List (String × ℕ)
  after_metrics = union_metrics (metrics_of xs) after_logs.0 []

  abbrev after_roots : List ℕ × List (String × List ℕ)
  after_roots = log_roots (logs_of xs) after_metrics.0 []

  logs_passed :
      LogsPassed xs n
        (Apart xs)
        (Apart-Equivalence xs)
        same_signature
        same_trace
        (λ i. i)
        []
        []
        (logs_of xs)
        after_logs.0
        after_logs.1
        after_logs.2
  unfolding initial
  logs_passed =
      union_logs-Passed xs n (Apart xs) (Apart-Equivalence xs) same_signature same_trace
        (logs_of xs) (singletons n) [] [] (initial n (Apart xs) (Apart-Equivalence xs))
        (Known-empty (SignatureAt xs) n) (Known-empty (TraceAt xs) n) (logs_placed xs)

  metrics_passed :
      MetricsPassed xs n
        (Apart xs)
        (Apart-Equivalence xs)
        same_service
        logs_passed.state.rep
        []
        (metrics_of xs)
        after_metrics
  metrics_passed =
      union_metrics-Passed xs n (Apart xs) (Apart-Equivalence xs) same_service (metrics_of xs)
        after_logs.0 [] logs_passed.state (Known-empty (ServiceAt xs) n) (metrics_placed xs)

  abbrev middle : State n (Apart xs) after_metrics.0
  middle = metrics_passed.state

  roots_empty : RootsSound xs n middle.rep []
  unfolding get
  roots_empty = record {
    distinct = λ k rs e. absurd (ground arith);
    from_log = λ k rs e. absurd (ground arith);
  }

  roots_passed :
      RootsPassed xs n (Apart xs) (Apart-Equivalence xs) middle.rep [] (logs_of xs) after_roots
  roots_passed =
      log_roots-Passed xs n (Apart xs) (Apart-Equivalence xs) (logs_of xs) after_metrics.0 []
        middle.rep middle refl roots_empty (logs_placed xs)

  -- Joined logs are in one class before the metrics are attached.
  Joined-rep : {i j : ℕ} → Joined xs i j → logs_passed.state.rep i ≡ logs_passed.state.rep j
  Joined-rep (Joined.same_signature {i = i} {j = j} a b ha hb e) =
      Recorded-same logs_passed.state.rep after_logs.1 a.signature b.signature i j
        (logs_passed.recorded (i, a) (LogAt-In xs i a ha)).signature
        (logs_passed.recorded (j, b) (LogAt-In xs j b hb)).signature e
  Joined-rep (Joined.shared_trace {i = i} {j = j} a b t ha hb ta tb) =
      Recorded-same logs_passed.state.rep after_logs.2 t t i j
        ((logs_passed.recorded (i, a) (LogAt-In xs i a ha)).traces t ta)
        ((logs_passed.recorded (j, b) (LogAt-In xs j b hb)).traces t tb) refl
  Joined-rep (Joined.symm r) = sym (Joined-rep r)
  Joined-rep (Joined.trans r t) = Joined-rep r ∙ Joined-rep t

  Joined-middle : {i j : ℕ} → Joined xs i j → middle.rep i ≡ middle.rep j
  Joined-middle {i} {j} r = metrics_passed.grows i j (Joined-rep r)

  middle_Joined :
      (i j : ℕ) (a b : LogAnomaly)
      → LogAt xs i a
      → LogAt xs j b
      → middle.rep i ≡ middle.rep j
      → Joined xs i j
  middle_Joined i j a b ha hb e =
      transport (Apart-logs xs i j a b ha hb)
        (middle.sound i j (get_elem?-lt xs i ha) (get_elem?-lt xs j hb) e)

  root_of : (i : ℕ) (a : LogAnomaly) → LogAt xs i a → HasRoot middle.rep after_roots.1 (i, a)
  root_of i a h = roots_passed.recorded (i, a) (LogAt-In xs i a h)

  -- If a service has one root then every log of the service has that root.
  root_unique :
      (i : ℕ) (a : LogAnomaly) (k : String) (root : ℕ)
      → LogAt xs i a
      → a.service ≡ k
      → get after_roots.1 k ≡ some (root ∷ [])
      → middle.rep i ≡ root
  root_unique i a k root h e one =
      let r = root_of i a h in
      let rs : some r.roots ≡ some (root ∷ []) = sym r.found ∙ ap (get after_roots.1) e ∙ one in
      let same : r.roots ≡ root ∷ [] = cc in
      let m : In (middle.rep i) (root ∷ []) = subst (In (middle.rep i)) same r.root_in in
      elim m [ inl h ↦ h | inr h ↦ elim h [ ] ]

  attachable :
      (i : ℕ) (m : MetricAnomaly) (root : ℕ)
      → i < n
      → MetricAt xs i m
      → get after_roots.1 m.service ≡ some (root ∷ [])
      → (root < n) × Connected xs root i
  attachable i m root h hm one =
      let ((j, a), (hj, ha), service, e) =
        roots_passed.sound.from_log m.service (root ∷ []) one root (inl refl) in
      let below : root < n = subst (λ u. u < n) (sym e) (rep_lt middle j hj) in
      let same : middle.rep root ≡ middle.rep j = ap middle.rep e ∙ rep-rep middle j hj in
      let together : OneLogGroup xs a.service = λ k l b c hb hc eb ec. middle_Joined k l b c hb hc (
        root_unique k b m.service root hb (eb ∙ service) one
        ∙ sym (root_unique l c m.service root hc (ec ∙ service) one)) in
      (
        below,
        Connected.trans (Connected_of_Apart xs root j below (middle.sound root j below hj same))
            (Connected.symm (Connected.attached m a hm ha (sym service) together)),
      )

  before_attach : State n (Connected xs) after_roots.0
  before_attach = record {
    rep = roots_passed.state.rep;
    represents = roots_passed.state.represents;
    sound = λ i j h k e. Connected_of_Apart xs i j h (roots_passed.state.sound i j h k e);
  }

  attach_passed :
      AttachPassed xs n
        (Connected xs)
        (Connected-Equivalence xs)
        after_roots.1
        attachable
        roots_passed.state.rep
        (metrics_of xs)
        (attach_metrics (metrics_of xs) after_roots.0 after_roots.1)
  unfolding before_attach
  attach_passed =
      attach_metrics-Passed xs n (Connected xs) (Connected-Equivalence xs) after_roots.1 attachable
        (metrics_of xs) after_roots.0 before_attach (metrics_placed xs)

  middle_final :
      (i j : ℕ)
      → middle.rep i ≡ middle.rep j
      → attach_passed.state.rep i ≡ attach_passed.state.rep j
  middle_final i j e = attach_passed.grows i j (
      ap (λ (f : ℕ → ℕ). f i) roots_passed.same
      ∙ e
      ∙ sym (ap (λ (f : ℕ → ℕ). f j) roots_passed.same))

  single_root :
      (j : ℕ) (a : LogAnomaly)
      → LogAt xs j a
      → OneLogGroup xs a.service
      → get after_roots.1 a.service ≡ some (middle.rep j ∷ [])
  single_root j a ha one =
      let r = root_of j a ha in
      r.found
      ∙ ap some (
          only_one (middle.rep j) r.roots (roots_passed.sound.distinct a.service r.roots r.found)
            r.root_in
            λ u u_in.
              let ((l, b), (hl, hb), service, e) =
                roots_passed.sound.from_log a.service r.roots r.found u u_in in
              e ∙ Joined-middle (one l j b a hb ha service refl))

  Connected-rep :
      {i j : ℕ} → Connected xs i j → attach_passed.state.rep i ≡ attach_passed.state.rep j
  Connected-rep (Connected.joined {i = i} {j = j} r) = middle_final i j (Joined-middle r)
  Connected-rep (Connected.same_service {i = i} {j = j} a b ha hb e) = middle_final i j (
      Recorded-same middle.rep after_metrics.1 a.service b.service i j
        (metrics_passed.recorded (i, a) (MetricAt-In xs i a ha))
        (metrics_passed.recorded (j, b) (MetricAt-In xs j b hb)) e)
  Connected-rep (Connected.attached {i = i} {j = j} m a hm ha e one) =
      let hj = get_elem?-lt xs j ha in
      sym (
        sym (middle_final (middle.rep j) j (rep-rep middle j hj))
        ∙ attach_passed.recorded (i, m) (middle.rep j) (MetricAt-In xs i m hm)
            (ap (get after_roots.1) e ∙ single_root j a ha one))
  Connected-rep (Connected.symm r) = sym (Connected-rep r)
  Connected-rep (Connected.trans r t) = Connected-rep r ∙ Connected-rep t

  pub connect_lem :
      (s : State n (Connected xs) (connect xs)) × ((i j : ℕ) → Connected xs i j → s.rep i ≡ s.rep j)
  unfolding connect
  connect_lem = (attach_passed.state, λ i j r. Connected-rep r)
