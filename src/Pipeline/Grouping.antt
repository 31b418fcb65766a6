-- ===== src/Pipeline/Grouping.antt =====
-- src/aiops_apm/pipeline/grouping.py. A member of a group is an anomaly with its position in the
-- input, which stands for the identity of the object.
pub mod UnionFind
pub mod Connected
mod Linking
mod Passes
mod Distinct
mod Attach
mod Placed
mod Classes
mod Connect
pub mod Together
pub mod Partition
pub mod Tests
use aiops_apm_anomaly_detect.Prelude.{
  ℕ, suc, ◌+◌, ◌≡◌, String, Bool, true, false, Option, none, some, List, [], ◌∷◌, ◌++◌, map,
  flatten, length, or_else, some_of, ltb, leb, ◌==◌, if◌then◌else◌, str_eq,
}
use aiops_apm_anomaly_detect.Prelude.Dict.{get, put, nat_key, string_key}
use aiops_apm_anomaly_detect.Prelude.Sort.{sort_by, sorted}
use aiops_apm_anomaly_detect.Prelude.Text.{string_ordered}
use aiops_apm_anomaly_detect.Errors.{Result, ok, err, assertion_error, guard, ◌>>=◌, ◌>>◌}
use aiops_apm_anomaly_detect.Models.Anomaly.{Anomaly, MetricAnomaly, LogAnomaly, service_of}
use aiops_apm_anomaly_detect.Pipeline.Grouping.UnionFind.{singletons, find, union}

-- `enumerate(anomalies)`, from position `i`.
unfoldable pub enumerate : ℕ → List Anomaly → List (ℕ × Anomaly)
enumerate i [] = []
enumerate i (a ∷ r) = (i, a) ∷ enumerate (suc i) r

-- `[(i, a) for i, a in enumerate(anomalies) if isinstance(a, LogAnomaly)]`
unfoldable pub indexed_logs : List (ℕ × Anomaly) → List (ℕ × LogAnomaly)
indexed_logs [] = []
indexed_logs ((i, Anomaly.log a) ∷ r) = (i, a) ∷ indexed_logs r
indexed_logs ((i, Anomaly.metric a) ∷ r) = indexed_logs r

unfoldable pub indexed_metrics : List (ℕ × Anomaly) → List (ℕ × MetricAnomaly)
indexed_metrics [] = []
indexed_metrics ((i, Anomaly.log a) ∷ r) = indexed_metrics r
indexed_metrics ((i, Anomaly.metric a) ∷ r) = (i, a) ∷ indexed_metrics r

-- A union-find with a dictionary from keys to the first position that had the key.
abbrev pub Linking : Type 0
Linking = List ℕ × List (String × ℕ)

-- `if key in d: uf.union(d[key], idx)` `else: d[key] = idx`
unfoldable pub link_found : Option ℕ → String → ℕ → List ℕ → List (String × ℕ) → Linking
link_found none key idx uf d = (uf, put d key idx)
link_found (some first) key idx uf d = (union uf first idx, d)

unfoldable pub link : String → ℕ → Linking → Linking
unfolding link_found
link key idx (uf, d) = link_found (get d key) key idx uf d

-- `for tid in a.trace_ids`
unfoldable pub link_traces : List String → ℕ → Linking → Linking
unfolding link
link_traces [] idx l = l
link_traces (tid ∷ tids) idx l = link_traces tids idx (link tid idx l)

-- `_union_logs`, with its two dictionaries beside the union-find.
unfoldable pub union_logs :
    List (ℕ × LogAnomaly)
    → List ℕ
    → List (String × ℕ)
    → List (String × ℕ)
    → List ℕ × List (String × ℕ) × List (String × ℕ)
unfolding link link_traces
union_logs [] uf by_signature by_trace = (uf, by_signature, by_trace)
union_logs ((idx, a) ∷ logs) uf by_signature by_trace =
    let (uf', by_signature') = link a.signature idx (uf, by_signature) in
    let (uf'', by_trace') = link_traces a.trace_ids idx (uf', by_trace) in
    union_logs logs uf'' by_signature' by_trace'

-- `anchor = metric_root_by_service.setdefault(metric.service, idx)`, and the union with it.
unfoldable pub anchored : Option ℕ → String → ℕ → List ℕ → List (String × ℕ) → Linking
anchored none service idx uf d = (uf, put d service idx)
anchored (some anchor) service idx uf d = (if anchor == idx then uf else union uf anchor idx, d)

unfoldable pub union_metrics : List (ℕ × MetricAnomaly) → List ℕ → List (String × ℕ) → Linking
unfolding anchored
union_metrics [] uf d = (uf, d)
union_metrics ((idx, m) ∷ metrics) uf d =
    let (uf', d') = anchored (get d m.service) m.service idx uf d in union_metrics metrics uf' d'

-- `roots.add(root)`
unfoldable pub add : ℕ → List ℕ → List ℕ
add root roots = if some_of (λ r. r == root) roots then roots else roots ++ root ∷ []

-- The loop that fills `log_root_by_service`; `find` compresses paths on the way.
unfoldable pub log_roots :
    List (ℕ × LogAnomaly) → List ℕ → List (String × List ℕ) → List ℕ × List (String × List ℕ)
unfolding add
log_roots [] uf d = (uf, d)
log_roots ((idx, a) ∷ logs) uf d =
    let (root, uf') = find uf idx in
    let roots = or_else (get d a.service) [] in
    log_roots logs uf' (put d a.service (add root roots))

-- `if roots and len(roots) == 1: uf.union(next(iter(roots)), idx)`
unfoldable pub attach : Option (List ℕ) → ℕ → List ℕ → List ℕ
attach (some (root ∷ [])) idx uf = union uf root idx
attach _ idx uf = uf

unfoldable pub attach_metrics : List (ℕ × MetricAnomaly) → List ℕ → List (String × List ℕ) → List ℕ
unfolding attach
attach_metrics [] uf d = uf
attach_metrics ((idx, m) ∷ metrics) uf d =
    attach_metrics metrics (attach (get d m.service) idx uf) d

-- The union-find after all four passes.
unfoldable pub connect : List Anomaly → List ℕ
unfolding union_logs union_metrics log_roots attach_metrics enumerate indexed_logs indexed_metrics
connect anomalies =
    let indexed = enumerate 0 anomalies in
    let logs = indexed_logs indexed in
    let metrics = indexed_metrics indexed in
    let linked = union_logs logs (singletons (length anomalies)) [] [] in
    let merged = union_metrics metrics linked.0 [] in
    let (uf, by_service) = log_roots logs merged.0 [] in attach_metrics metrics uf by_service

-- `components` and `first_index`, each from a root.
abbrev pub Components : Type 0
Components = List (ℕ × List (ℕ × Anomaly)) × List (ℕ × ℕ)

-- The loop over all anomalies: `components.setdefault(root, []).append(a)` and
-- `first_index.setdefault(root, idx)`.
unfoldable pub collect : List (ℕ × Anomaly) → List ℕ → Components → Components
collect [] uf c = c
collect ((idx, a) ∷ rest) uf (members, first_index) =
    let (root, uf') = find uf idx in
    collect rest uf' (
      put members root (or_else (get members root) [] ++ (idx, a) ∷ []),
      put first_index root (or_else (get first_index root) idx),
    )

-- `[components[root] for root in sorted(components, key=lambda r: first_index[r])]`
unfoldable pub ordered_groups : Components → List (List (ℕ × Anomaly))
unfolding sort_by
ordered_groups (members, first_index) =
    let first = λ (root : ℕ). or_else (get first_index root) 0 in
    map (λ e. e.1) (sort_by (λ d e. leb (first d.0) (first e.0)) members)

-- `{id(a) for g in groups for a in g}`
unfoldable pub distinct : List ℕ → List ℕ
unfolding add
distinct [] = []
distinct (i ∷ is) = add i (distinct is)

abbrev pub Group : Type 0
Group = List (ℕ × Anomaly)

-- The two assertions at the end.
unfoldable pub checked : ℕ → List Group → Result (List Group)
unfolding distinct
checked n groups = do
  guard (length (flatten groups) == n) assertion_error
  guard (length (distinct (map (λ m. m.0) (flatten groups))) == n) assertion_error
  ok groups

unfoldable pub group_anomalies : List Anomaly → Result (List Group)
unfolding connect collect ordered_groups checked enumerate
group_anomalies [] = ok []
group_anomalies (a ∷ r) =
    let anomalies = a ∷ r in
    checked (length anomalies)
      (ordered_groups (collect (enumerate 0 anomalies) (connect anomalies) ([], [])))

-- `sorted({a.service for a in group})`
unfoldable pub distinct_texts : List String → List String
distinct_texts [] = []
distinct_texts (s ∷ r) =
    let rest = distinct_texts r in if some_of (λ t. str_eq t s) rest then rest else s ∷ rest

unfoldable pub group_services : List Anomaly → List String
unfolding distinct_texts sorted
group_services group = sorted (distinct_texts (map service_of group))

unfoldable pub representative_service : List Anomaly → String
representative_service group = elim (group_services group) [
  | [] ↦ "unknown"
  | service ∷ rest ↦ service
]
