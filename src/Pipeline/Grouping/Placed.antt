-- ===== src/Pipeline/Grouping/Placed.antt =====
-- Lemmas on the numbered anomalies that the passes walk over.
use aiops_apm_anomaly_detect.Prelude.{
  ℕ, zero, suc, ◌+◌, ◌<◌, ◌≡◌, ◌≢◌, sym, ap, ◌∙◌, inl, inr, none, some, List, [], ◌∷◌, In, All,
  arith, get_elem?, length,
}
use aiops_apm_anomaly_detect.Models.Anomaly.{Anomaly, MetricAnomaly, LogAnomaly}
use aiops_apm_anomaly_detect.Pipeline.Grouping.{enumerate, indexed_logs, indexed_metrics}
use aiops_apm_anomaly_detect.Pipeline.Grouping.Connected.{LogAt, MetricAt}

pub get_elem?-lt {ℓ} :
    {A : Type ℓ} (xs : List A) (i : ℕ) {a : A} → get_elem? xs i ≡ some a → i < length xs
get_elem?-lt [] i e = absurd (ground arith)
get_elem?-lt (x ∷ xs) zero e = omega arith
get_elem?-lt (x ∷ xs) (suc i) e = omega (arith, get_elem?-lt xs i e)

pub get_elem?-ne_none {ℓ} :
    {A : Type ℓ} (xs : List A) (i : ℕ) → i < length xs → get_elem? xs i ≢ none
get_elem?-ne_none [] i h e = elim h [ ]
get_elem?-ne_none (x ∷ xs) zero h e = ground arith
get_elem?-ne_none (x ∷ xs) (suc i) h e = get_elem?-ne_none xs i (omega arith) e

-- Every item of a numbered list stands at its number.
abbrev pub Numbered : List Anomaly → ℕ × Anomaly → Type 0
Numbered xs m = (m.0 < length xs) × (get_elem? xs m.0 ≡ some m.1)

-- `rest` is what is left of `xs` from position `k` on.
module _ (xs : List Anomaly) where
  abbrev From : ℕ → List Anomaly → Type 0
  From k rest = (i : ℕ) → get_elem? rest i ≡ get_elem? xs (k + i)

  From-suc : (k : ℕ) (a : Anomaly) (rest : List Anomaly) → From k (a ∷ rest) → From (suc k) rest
  From-suc k a rest f i = f (suc i) ∙ ap (get_elem? xs) (omega arith)

  enumerate-Numbered :
      (k : ℕ) (rest : List Anomaly) → From k rest → All (Numbered xs) (enumerate k rest)
  unfolding enumerate
  enumerate-Numbered k [] f = tt
  enumerate-Numbered k (a ∷ rest) f =
      let here : get_elem? xs k ≡ some a = ap (get_elem? xs) (omega arith) ∙ sym (f 0) in
      ((get_elem?-lt xs k here, here), enumerate-Numbered (suc k) rest (From-suc k a rest f))

  In-enumerate :
      (k : ℕ) (rest : List Anomaly) (i j : ℕ) (a : Anomaly)
      → k + i ≡ j
      → get_elem? rest i ≡ some a
      → In (j, a) (enumerate k rest)
  unfolding enumerate
  In-enumerate k [] i j a e h = absurd (ground arith)
  In-enumerate k (b ∷ rest) zero j a e h = inl (ground arith)
  In-enumerate k (b ∷ rest) (suc i) j a e h = inr (In-enumerate (suc k) rest i j a (omega arith) h)

  abbrev numbered : List (ℕ × Anomaly)
  numbered = enumerate 0 xs

  pub All-Numbered : All (Numbered xs) (enumerate 0 xs)
  All-Numbered = enumerate-Numbered 0 xs (λ i. ap (get_elem? xs) (omega arith))

  indexed_logs-placed :
      (l : List (ℕ × Anomaly))
      → All (Numbered xs) l
      → All (λ m. (m.0 < length xs) × LogAt xs m.0 m.1) (indexed_logs l)
  unfolding indexed_logs
  indexed_logs-placed [] h = tt
  indexed_logs-placed ((i, Anomaly.log a) ∷ l) h = (h.0, indexed_logs-placed l h.1)
  indexed_logs-placed ((i, Anomaly.metric a) ∷ l) h = indexed_logs-placed l h.1

  indexed_metrics-placed :
      (l : List (ℕ × Anomaly))
      → All (Numbered xs) l
      → All (λ m. (m.0 < length xs) × MetricAt xs m.0 m.1) (indexed_metrics l)
  unfolding indexed_metrics
  indexed_metrics-placed [] h = tt
  indexed_metrics-placed ((i, Anomaly.metric a) ∷ l) h = (h.0, indexed_metrics-placed l h.1)
  indexed_metrics-placed ((i, Anomaly.log a) ∷ l) h = indexed_metrics-placed l h.1

  In-indexed_logs :
      (l : List (ℕ × Anomaly)) (i : ℕ) (a : LogAnomaly)
      → In (i, Anomaly.log a) l
      → In (i, a) (indexed_logs l)
  unfolding indexed_logs
  In-indexed_logs [] i a m = elim m [ ]
  In-indexed_logs ((j, Anomaly.log b) ∷ l) i a (inl e) = inl (ground arith)
  In-indexed_logs ((j, Anomaly.log b) ∷ l) i a (inr m) = inr (In-indexed_logs l i a m)
  In-indexed_logs ((j, Anomaly.metric b) ∷ l) i a (inl e) = absurd (ground arith)
  In-indexed_logs ((j, Anomaly.metric b) ∷ l) i a (inr m) = In-indexed_logs l i a m

  In-indexed_metrics :
      (l : List (ℕ × Anomaly)) (i : ℕ) (a : MetricAnomaly)
      → In (i, Anomaly.metric a) l
      → In (i, a) (indexed_metrics l)
  unfolding indexed_metrics
  In-indexed_metrics [] i a m = elim m [ ]
  In-indexed_metrics ((j, Anomaly.metric b) ∷ l) i a (inl e) = inl (ground arith)
  In-indexed_metrics ((j, Anomaly.metric b) ∷ l) i a (inr m) = inr (In-indexed_metrics l i a m)
  In-indexed_metrics ((j, Anomaly.log b) ∷ l) i a (inl e) = absurd (ground arith)
  In-indexed_metrics ((j, Anomaly.log b) ∷ l) i a (inr m) = In-indexed_metrics l i a m

  abbrev pub logs_of : List (ℕ × LogAnomaly)
  logs_of = indexed_logs (enumerate 0 xs)

  abbrev pub metrics_of : List (ℕ × MetricAnomaly)
  metrics_of = indexed_metrics (enumerate 0 xs)

  pub logs_placed : All (λ m. (m.0 < length xs) × LogAt xs m.0 m.1) logs_of
  logs_placed = indexed_logs-placed (enumerate 0 xs) All-Numbered

  pub metrics_placed : All (λ m. (m.0 < length xs) × MetricAt xs m.0 m.1) metrics_of
  metrics_placed = indexed_metrics-placed (enumerate 0 xs) All-Numbered

  pub LogAt-In : (i : ℕ) (a : LogAnomaly) → LogAt xs i a → In (i, a) logs_of
  LogAt-In i a h =
      In-indexed_logs (enumerate 0 xs) i a (In-enumerate 0 xs i i (Anomaly.log a) (omega arith) h)

  pub MetricAt-In : (i : ℕ) (m : MetricAnomaly) → MetricAt xs i m → In (i, m) metrics_of
  MetricAt-In i m h =
      In-indexed_metrics (enumerate 0 xs) i m
        (In-enumerate 0 xs i i (Anomaly.metric m) (omega arith) h)
