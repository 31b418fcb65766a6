-- ===== src/Pipeline/Grouping/Attach.antt =====
-- The roots of the logs of each service, and the metrics that join the only one.
use aiops_apm_anomaly_detect.Prelude.{
  ℕ, ◌<◌, ◌≡◌, refl, sym, ap, subst, ◌∙◌, ◌⊎◌, inl, inr, String, Option, none, some, List, [], ◌∷◌,
  In, All, arith, Bool-cases, Option-cases, if◌then◌else◌, or_else, str_eq, str_eq_iff,
}
use aiops_apm_anomaly_detect.Prelude.Dict.{get, put, get-put, string_key}
use aiops_apm_anomaly_detect.Models.Anomaly.{Anomaly, MetricAnomaly, LogAnomaly}
use aiops_apm_anomaly_detect.Pipeline.Grouping.{add, log_roots, attach, attach_metrics}
use aiops_apm_anomaly_detect.Pipeline.Grouping.Distinct.{
  NoDup, NoDup-add, In-add_self, In-add_keeps, In-add_cases,
}
use aiops_apm_anomaly_detect.Pipeline.Grouping.Connected.{LogAt, MetricAt}
use aiops_apm_anomaly_detect.Pipeline.Grouping.UnionFind.{find}
use aiops_apm_anomaly_detect.Pipeline.Grouping.Linking.{
  Equivalence, State, Grows, union_joins, find_keeps,
}

abbrev pub LogPlaced : List Anomaly → ℕ → ℕ × LogAnomaly → Type 0
LogPlaced xs n m = (m.0 < n) × LogAt xs m.0 m.1

-- The root of a log stands under its service.
pub record HasRoot (rep : ℕ → ℕ) (d : List (String × List ℕ)) (m : ℕ × LogAnomaly) : Type 0 where
  pub roots : List ℕ
  pub found : get d m.1.service ≡ some roots
  pub root_in : In (rep m.0) roots

-- Under a service stand different roots, of logs of that service.
pub record RootsSound (xs : List Anomaly) (n : ℕ) (rep : ℕ → ℕ) (d : List (String × List ℕ))
    : Type 0 where
  pub distinct : (k : String) (rs : List ℕ) → get d k ≡ some rs → NoDup rs
  pub from_log :
      (k : String) (rs : List ℕ)
      → get d k ≡ some rs
      → (r : ℕ) → In r rs
      → (m : ℕ × LogAnomaly) × LogPlaced xs n m × (m.1.service ≡ k) × (r ≡ rep m.0)

-- One round of the loop over the logs, on the dictionary.
module _ (xs : List Anomaly) (n : ℕ) (rep : ℕ → ℕ) (d : List (String × List ℕ)) (m : ℕ × LogAnomaly)
    (placed : LogPlaced xs n m) (sound : RootsSound xs n rep d) where
  old_roots : List ℕ
  old_roots = or_else (get d m.1.service) []

  new_dict : List (String × List ℕ)
  new_dict = put d m.1.service (add (rep m.0) old_roots)

  old_distinct : NoDup old_roots
  unfolding old_roots
  old_distinct = elim (Option-cases (get d m.1.service)) [
    | inl e ↦ rw e tt
    | inr (rs, e) ↦ rw e (sound.distinct m.1.service rs e)
  ]

  old_from_log :
      (r : ℕ)
      → In r old_roots
      → (u : ℕ × LogAnomaly) × LogPlaced xs n u × (u.1.service ≡ m.1.service) × (r ≡ rep u.0)
  unfolding old_roots
  old_from_log r i = elim (Option-cases (get d m.1.service)) [
    | inl e ↦ let j : In r [] = rw e at i in elim j [ ]
    | inr (rs, e) ↦ let j : In r rs = rw e at i in sound.from_log m.1.service rs e r j
  ]

  get-new_dict :
      (k : String)
      → get new_dict k ≡ (if str_eq m.1.service k then some (add (rep m.0) old_roots) else get d k)
  unfolding new_dict
  get-new_dict k = get-put d m.1.service k (add (rep m.0) old_roots)

  -- The entry of a service after the round.
  new_entry :
      (k : String) (rs : List ℕ)
      → get new_dict k ≡ some rs
      → (m.1.service ≡ k) × (rs ≡ add (rep m.0) old_roots) ⊎ (get d k ≡ some rs)
  new_entry k rs e = elim (Bool-cases (str_eq m.1.service k)) [
    | inl s ↦
        let e' : some (add (rep m.0) old_roots) ≡ some rs = rw (get-new_dict k, s) at e in
        inl ((str_eq_iff m.1.service k).0 s, cc)
    | inr s ↦ inr (rw (get-new_dict k, s) at e)
  ]

  new_sound : RootsSound xs n rep new_dict
  new_sound = record {
    distinct = λ k rs e. elim (new_entry k rs e) [
      | inl (s, same) ↦ rw same (NoDup-add (rep m.0) old_roots old_distinct)
      | inr old ↦ sound.distinct k rs old
    ];
    from_log = λ k rs e r i. elim (new_entry k rs e) [
      | inl (s, same) ↦ elim (In-add_cases (rep m.0) r old_roots (rw same at i)) [
        | inl new ↦ (m, placed, s, new)
        | inr was ↦ let (u, pu, su, eu) = old_from_log r was in (u, pu, su ∙ s, eu)
      ]
      | inr old ↦ sound.from_log k rs old r i
    ];
  }

  new_root : HasRoot rep new_dict m
  new_root = record {
    roots = add (rep m.0) old_roots;
    found = ground (arith, get-new_dict m.1.service, str_eq_iff m.1.service m.1.service);
    root_in = In-add_self (rep m.0) old_roots;
  }

  new_keeps : (u : ℕ × LogAnomaly) → HasRoot rep d u → HasRoot rep new_dict u
  unfolding old_roots
  new_keeps u r = elim (Bool-cases (str_eq m.1.service u.1.service)) [
    | inl s ↦
        let same : m.1.service ≡ u.1.service = (str_eq_iff m.1.service u.1.service).0 s in
        let was : or_else (get d m.1.service) [] ≡ r.roots =
          ap (λ k. or_else (get d k) []) same ∙ ap (λ o. or_else o []) r.found in
        record {
          roots = add (rep m.0) (or_else (get d m.1.service) []);
          found = rw (get-new_dict u.1.service, s);
          root_in = In-add_keeps (rep m.0) (rep u.0) _ (rw was r.root_in);
        }
    | inr s ↦ record {
      roots = r.roots;
      found = rw (get-new_dict u.1.service, s) r.found;
      root_in = r.root_in;
    }
  ]

module _ (xs : List Anomaly) (n : ℕ) (R : ℕ → ℕ → Type 0) (q : Equivalence R n) where
  -- What the loop over the logs leaves, for the classes `rep`, which it does not change.
  pub record RootsPassed (rep : ℕ → ℕ) (d : List (String × List ℕ)) (logs : List (ℕ × LogAnomaly))
      (r : List ℕ × List (String × List ℕ)) : Type 0 where
    pub state : State n R r.0
    pub same : state.rep ≡ rep
    pub sound : RootsSound xs n rep r.1
    pub keeps : (u : ℕ × LogAnomaly) → HasRoot rep d u → HasRoot rep r.1 u
    pub recorded : (u : ℕ × LogAnomaly) → In u logs → HasRoot rep r.1 u

  pub log_roots-Passed :
      (logs : List (ℕ × LogAnomaly)) (p : List ℕ) (d : List (String × List ℕ)) (rep : ℕ → ℕ)
      (s : State n R p)
      → s.rep ≡ rep
      → RootsSound xs n rep d
      → All (LogPlaced xs n) logs
      → RootsPassed rep d logs (log_roots logs p d)
  unfolding log_roots new_dict old_roots
  log_roots-Passed [] p d rep s e sound placed = record {
    state = s;
    same = e;
    sound = sound;
    keeps = λ u r. r;
    recorded = λ u i. elim i [ ];
  }
  log_roots-Passed ((idx, a) ∷ logs) p d rep s e sound (here, placed) =
      let (s', e', root) = find_keeps q s idx here.0 in
      let d' = new_dict xs n rep d (idx, a) here sound in
      let rest =
        log_roots-Passed logs (find p idx).1 d' rep s' (e' ∙ e)
          (new_sound xs n rep d (idx, a) here sound) placed in
      let found : (find p idx).0 ≡ rep idx = root ∙ ap (λ (f : ℕ → ℕ). f idx) e in
      rw found (record {
        state = rest.state;
        same = rest.same;
        sound = rest.sound;
        keeps = λ u r. rest.keeps u (new_keeps xs n rep d (idx, a) here sound u r);
        recorded = λ u i. elim i [
          | inl same ↦
              subst (λ (v : ℕ × LogAnomaly). HasRoot rep (log_roots logs (find p idx).1 d').1 v)
                (sym same) (rest.keeps (idx, a) (new_root xs n rep d (idx, a) here sound))
          | inr later ↦ rest.recorded u later
        ];
      })

  -- The last pass: `attachable` says that a single root is related to each metric of its service.
  module _ (d : List (String × List ℕ))
      (attachable : (i : ℕ) (m : MetricAnomaly) (root : ℕ)
        → i < n
        → MetricAt xs i m
        → get d m.service ≡ some (root ∷ [])
        → (root < n) × R root i) where
    pub record AttachPassed (rep : ℕ → ℕ) (metrics : List (ℕ × MetricAnomaly)) (p : List ℕ)
        : Type 0 where
      pub state : State n R p
      pub grows : Grows rep state.rep
      pub recorded :
          (u : ℕ × MetricAnomaly) (root : ℕ)
          → In u metrics
          → get d u.1.service ≡ some (root ∷ [])
          → state.rep root ≡ state.rep u.0

    attach_one :
        (o : Option (List ℕ)) (i : ℕ) (m : MetricAnomaly) (p : List ℕ) (s : State n R p)
        → get d m.service ≡ o
        → i < n
        → MetricAt xs i m
        → (s' : State n R (attach o i p)) × Grows s.rep s'.rep
          × ((root : ℕ) → o ≡ some (root ∷ []) → s'.rep root ≡ s'.rep i)
    unfolding attach
    attach_one (some (root ∷ [])) i m p s e h at =
        let (hr, r) = attachable i m root h at e in
        let (s', g, j) = union_joins q s root i hr h r in
        (s', g, λ root' e'. let same : root ≡ root' = cc in rw (← same) j)
    attach_one none i m p s e h at = (s, λ a b c. c, λ root e'. absurd (ground arith))
    attach_one (some []) i m p s e h at = (s, λ a b c. c, λ root e'. absurd (ground arith))
    attach_one (some (r ∷ t ∷ rs)) i m p s e h at =
        (s, λ a b c. c, λ root e'. absurd (ground arith))

    pub attach_metrics-Passed :
        (metrics : List (ℕ × MetricAnomaly)) (p : List ℕ) (s : State n R p)
        → All (λ u. (u.0 < n) × MetricAt xs u.0 u.1) metrics
        → AttachPassed s.rep metrics (attach_metrics metrics p d)
    unfolding attach_metrics
    attach_metrics-Passed [] p s placed = record {
      state = s;
      grows = λ i j e. e;
      recorded = λ u root i. elim i [ ];
    }
    attach_metrics-Passed ((idx, m) ∷ metrics) p s (here, placed) =
        let (s', g, j) = attach_one (get d m.service) idx m p s refl here.0 here.1 in
        let rest = attach_metrics-Passed metrics (attach (get d m.service) idx p) s' placed in
        record {
          state = rest.state;
          grows = λ i k e. rest.grows i k (g i k e);
          recorded = λ u root i e. elim i [
            | inl same ↦ rest.grows root u.0 (
                subst
                  (λ (v : ℕ × MetricAnomaly).
                    get d v.1.service ≡ some (root ∷ []) → s'.rep root ≡ s'.rep v.0)
                  (sym same) (j root) e)
            | inr later ↦ rest.recorded u root later e
          ];
        }
