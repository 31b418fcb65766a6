-- ===== src/Pipeline/Grouping/Tests.antt =====
-- Small inputs, after tests/test_grouping.py.
use aiops_apm_anomaly_detect.Prelude.{ℕ, String, ◌≡◌, refl, none, List, [], ◌∷◌, map, flatten}
use aiops_apm_anomaly_detect.Prelude.Int.{pos}
use aiops_apm_anomaly_detect.Prelude.Sort.{sort_by}
use aiops_apm_anomaly_detect.Prelude.Dict.{get, put}
use aiops_apm_anomaly_detect.Errors.{Result, ok, ◌>>=◌}
use aiops_apm_anomaly_detect.Models.Float.{finite}
use aiops_apm_anomaly_detect.Models.Anomaly.{Anomaly}
use aiops_apm_anomaly_detect.Pipeline.Grouping.UnionFind.{singletons, find, union}
use aiops_apm_anomaly_detect.Pipeline.Grouping.{group_anomalies, Group}

abbrev pub log : String → String → List String → Anomaly
log service signature trace_ids = Anomaly.log (record {
  tenant_id = "default";
  service = service;
  level = "ERROR";
  signature = signature;
  pattern = "p";
  count = 7;
  first_seen = 100;
  severity = "high";
  detected_at = none;
  trace_ids = trace_ids;
})

abbrev pub metric : String → String → Anomaly
metric service name = Anomaly.metric (record {
  tenant_id = "default";
  service = service;
  metric = name;
  value = finite (pos 9);
  baseline = none;
  method = "static_threshold";
  severity = "high";
  detected_at = 100;
  labels = [];
})

abbrev positions : Result (List Group) → Result (List (List ℕ))
positions r = do gs ← r; ok (map (map (λ m. m.0)) gs)

abbrev pub sample : List Anomaly
sample =
    log "a" "ErrA" ("t1" ∷ [])
    ∷ metric "b" "cpu"
    ∷ log "b" "ErrB" ("t2" ∷ "t1" ∷ [])
    ∷ metric "c" "cpu"
    ∷ log "d" "ErrD" []
    ∷ metric "c" "mem"
    ∷ []

program : Unit {0}
unfolding group_anomalies singletons find union get put sort_by flatten
program = tt

group_anomalies-sample :
    positions (group_anomalies sample) ≡ ok ((0 ∷ 1 ∷ 2 ∷ []) ∷ (3 ∷ 5 ∷ []) ∷ (4 ∷ []) ∷ [])
unfolding program
group_anomalies-sample = refl
