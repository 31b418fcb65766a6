-- ===== src/Pipeline/Grouping/Connected.antt =====
-- What a group is, said without the algorithm: the rules of grouping.py as relations between
-- positions of the input.
use aiops_apm_anomaly_detect.Prelude.{ℕ, String, ◌≡◌, some, List, In, get_elem?}
use aiops_apm_anomaly_detect.Models.Anomaly.{Anomaly, MetricAnomaly, LogAnomaly}

abbrev pub LogAt : List Anomaly → ℕ → LogAnomaly → Type 0
LogAt xs i a = get_elem? xs i ≡ some (Anomaly.log a)

abbrev pub MetricAt : List Anomaly → ℕ → MetricAnomaly → Type 0
MetricAt xs i m = get_elem? xs i ≡ some (Anomaly.metric m)

-- Log anomalies that a chain of common signatures and common trace ids joins.
pub data Joined (xs : List Anomaly) : ℕ → ℕ → Type 0 where
  same_signature :
      {i j : ℕ} (a b : LogAnomaly)
      → LogAt xs i a
      → LogAt xs j b
      → a.signature ≡ b.signature
      → Joined xs i j
  shared_trace :
      {i j : ℕ} (a b : LogAnomaly) (tid : String)
      → LogAt xs i a
      → LogAt xs j b
      → In tid a.trace_ids
      → In tid b.trace_ids
      → Joined xs i j
  symm : {i j : ℕ} → Joined xs i j → Joined xs j i
  trans : {i j k : ℕ} → Joined xs i j → Joined xs j k → Joined xs i k

-- All log anomalies of the service are joined.
abbrev pub OneLogGroup : List Anomaly → String → Type 0
OneLogGroup xs service =
    (i j : ℕ) (a b : LogAnomaly)
    → LogAt xs i a
    → LogAt xs j b
    → a.service ≡ service
    → b.service ≡ service
    → Joined xs i j

-- Metric anomalies of one service belong together, and with the logs of their service where
-- these are all joined.
pub data Connected (xs : List Anomaly) : ℕ → ℕ → Type 0 where
  joined : {i j : ℕ} → Joined xs i j → Connected xs i j
  same_service :
      {i j : ℕ} (m n : MetricAnomaly)
      → MetricAt xs i m
      → MetricAt xs j n
      → m.service ≡ n.service
      → Connected xs i j
  attached :
      {i j : ℕ} (m : MetricAnomaly) (a : LogAnomaly)
      → MetricAt xs i m
      → LogAt xs j a
      → m.service ≡ a.service
      → OneLogGroup xs a.service
      → Connected xs i j
  symm : {i j : ℕ} → Connected xs i j → Connected xs j i
  trans : {i j k : ℕ} → Connected xs i j → Connected xs j k → Connected xs i k
