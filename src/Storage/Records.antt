-- ===== src/Storage/Records.antt =====
-- src/aiops_apm/storage/records.py, InMemoryRecordStore and its helpers. A row is the dumped record
-- with its `group_key`; the store is a dictionary from record ids to rows.
pub mod Keyed
pub mod Writes
pub mod Unique
use aiops_apm_anomaly_detect.Prelude.{
  ℕ, ◌+◌, String, Bool, true, false, not, ◌&&◌, ◌||◌, Option, none, some, List, [], ◌∷◌, ◌++◌, map,
  length, take, keep, some_of, all_of, is_nonempty, ltb, leb, if◌then◌else◌, str_eq,
}
use aiops_apm_anomaly_detect.Prelude.Dict as Dict
use aiops_apm_anomaly_detect.Prelude.Dict.{string_key}
use aiops_apm_anomaly_detect.Prelude.Sort.{sort_by, sorted}
use aiops_apm_anomaly_detect.Prelude.Text.{string_ordered, concat}
use aiops_apm_anomaly_detect.Prelude.Split.{split_commas}
use aiops_apm_anomaly_detect.Errors.{Result, ok, ◌>>=◌, ◌>>◌}
use aiops_apm_anomaly_detect.Models.Value.{Value, Items, Fields, Params, fields}
use aiops_apm_anomaly_detect.Models.Anomaly.{Anomaly, MetricAnomaly, LogAnomaly}
use aiops_apm_anomaly_detect.Models.Record.{ProblemRecord, record_group_key, anomalies_of}
use aiops_apm_anomaly_detect.Models.Fingerprint.{Hashing, anomaly_key}
use aiops_apm_anomaly_detect.Pipeline.Grouping.{distinct_texts}
use aiops_apm_anomaly_detect.Pipeline.Verify.{severity_rank}
use aiops_apm_anomaly_detect.Storage.DetectionState.{require_tenant}

pub record Row : Type 0 where
  pub base : ProblemRecord
  pub group_key : String

abbrev pub Rows : Type 0
Rows = List (String × Row)

-- `state in _OPEN_STATES`
abbrev pub is_open : Row → Bool
is_open row = str_eq row.base.state "pending" || str_eq row.base.state "in_progress"

abbrev pub contains : List String → String → Bool
contains keys key = some_of (λ k. str_eq k key) keys

module _ (h : Hashing) where
  unfoldable pub anomaly_keys : List MetricAnomaly → List LogAnomaly → List String
  unfolding distinct_texts anomaly_key
  anomaly_keys ms ls = distinct_texts (map (anomaly_key h) (anomalies_of ms ls))

  -- The union by identity, the old values first.
  unfoldable pub merge_anomalies {ℓ} : {A : Type ℓ} → (A → Anomaly) → List A → List String → List A
  unfolding anomaly_key
  merge_anomalies inject [] seen = []
  merge_anomalies inject (a ∷ r) seen = elim (contains seen (anomaly_key h (inject a))) [
    | true ↦ merge_anomalies inject r seen
    | false ↦ a ∷ merge_anomalies inject r (anomaly_key h (inject a) ∷ seen)
  ]

-- `keys and keys < new_keys`, for sets.
abbrev pub is_strict_subset : List String → List String → Bool
is_strict_subset keys new_keys =
    is_nonempty keys && (all_of (contains new_keys) keys && not (all_of (contains keys) new_keys))

-- `best is None or len(keys) > best[1]`
abbrev pub is_better : Option (String × Row × ℕ) → ℕ → Bool
is_better none n = true
is_better (some (id, row, m)) n = ltb m n

module _ (h : Hashing) where
  unfoldable pub superset_loop :
      Rows → List String → String → Option (String × Row × ℕ) → Option (String × Row × ℕ)
  unfolding anomaly_keys
  superset_loop [] new_keys tenant_id best = best
  superset_loop ((id, row) ∷ rows) new_keys tenant_id best =
      let keys = anomaly_keys h row.base.metric_anomalies row.base.log_anomalies in
      let wins =
        (str_eq row.base.tenant_id tenant_id && is_open row)
        && (is_strict_subset keys new_keys && is_better best (length keys)) in
      superset_loop rows new_keys tenant_id (if wins then some (id, row, length keys) else best)

abbrev pub found_of : Option (String × Row × ℕ) → Option (String × Row)
found_of none = none
found_of (some (id, row, n)) = some (id, row)

module _ (h : Hashing) where
  -- The row to merge into, with its key.
  unfoldable pub superset_candidate : ProblemRecord → Rows → String → Option (String × Row)
  unfolding superset_loop anomaly_keys
  superset_candidate r rows tenant_id =
      let new_keys = anomaly_keys h r.metric_anomalies r.log_anomalies in
      if is_nonempty new_keys then found_of (superset_loop h rows new_keys tenant_id none) else none

-- `record.last_seen_at or record.detected_at`
abbrev pub seen_at : ProblemRecord → Option ℕ
seen_at r = elim r.last_seen_at [ none ↦ some r.detected_at | some t ↦ some t ]

abbrev pub raised : ProblemRecord → String → String
raised r severity =
    if ltb (severity_rank severity) (severity_rank r.severity) then r.severity else severity

module _ (h : Hashing) where
  unfoldable pub apply_merge : Row → ProblemRecord → Row
  unfolding merge_anomalies record_group_key
  apply_merge row r = record {
    base = record row.base {
      metric_anomalies =
          merge_anomalies h Anomaly.metric (row.base.metric_anomalies ++ r.metric_anomalies) [];
      log_anomalies = merge_anomalies h Anomaly.log (row.base.log_anomalies ++ r.log_anomalies) [];
      evidence = row.base.evidence ++ r.evidence;
      occurrence_count = row.base.occurrence_count + 1;
      last_seen_at = seen_at r;
      severity = raised r row.base.severity;
    };
    group_key = record_group_key h r;
  }

-- The fields that the path with an equal key changes.
unfoldable pub append_row : Row → ProblemRecord → Row
append_row row r = record row {
  base = record row.base {
    evidence = row.base.evidence ++ r.evidence;
    occurrence_count = row.base.occurrence_count + 1;
    last_seen_at = seen_at r;
    severity = raised r row.base.severity;
  };
}

abbrev pub matches : String → String → Row → Bool
matches tenant_id group_key row =
    str_eq row.base.tenant_id tenant_id && (str_eq row.group_key group_key && is_open row)

-- The first open row with the key: the loop of `find_open`, and of `write_or_append`.
unfoldable pub find_row : Rows → String → String → Option (String × Row)
find_row [] tenant_id group_key = none
find_row ((id, row) ∷ rows) tenant_id group_key =
    if matches tenant_id group_key row then some (id, row) else find_row rows tenant_id group_key

module _ (h : Hashing) where
  -- The row for the new record: `record.model_dump()` with its key.
  abbrev pub dumped : ProblemRecord → Row
  unfolding record_group_key
  dumped r = record { base = r; group_key = record_group_key h r }

  unfoldable pub written :
      Option (String × Row) → Option (String × Row) → Rows → ProblemRecord → Rows
  unfolding apply_merge append_row Dict.put
  written (some (id, row)) equal rows r = Dict.put rows id (apply_merge h row r)
  written none (some (id, row)) rows r = Dict.put rows id (append_row row r)
  written none none rows r = Dict.put rows r.record_id (dumped r)

  unfoldable pub write_or_append : Rows → String → ProblemRecord → Result Rows
  unfolding superset_candidate find_row written record_group_key
  write_or_append rows tenant_id r = do
    require_tenant tenant_id
    ok (
        written (superset_candidate h r rows tenant_id)
          (find_row rows tenant_id (record_group_key h r)) rows r)

unfoldable pub find_open : Rows → String → String → Result (Option Row)
unfolding find_row
find_open rows tenant_id group_key = do
  require_tenant tenant_id
  ok (elim (find_row rows tenant_id group_key) [ none ↦ none | some (id, row) ↦ some row ])

abbrev pub filtered {ℓ} : {A : Type ℓ} → Option String → (String → A → Bool) → List A → List A
filtered none test rows = rows
filtered (some wanted) test rows = keep (test wanted) rows

-- The method `list`.
unfoldable pub list_rows :
    Rows → String → Option String → Option String → Option String → ℕ → Result (List Row)
unfolding sort_by split_commas
list_rows rows tenant_id state service severity limit =
    let own = keep (λ r. str_eq r.base.tenant_id tenant_id) (map (λ e. e.1) rows) in
    let by_state = filtered state (λ s r. str_eq r.base.state s) own in
    let by_service = filtered service (λ s r. contains (split_commas r.base.service) s) by_state in
    let by_severity = filtered severity (λ s r. str_eq r.base.severity s) by_service in
    do
      require_tenant tenant_id
      ok (take limit (sort_by (λ r s. leb s.base.detected_at r.base.detected_at) by_severity))

-- `row is None or row["tenant_id"] != tenant_id`, as the row that is left.
abbrev pub owned : Option Row → String → Option Row
owned none tenant_id = none
owned (some row) tenant_id = if str_eq row.base.tenant_id tenant_id then some row else none

unfoldable pub get : Rows → String → String → Result (Option Row)
unfolding Dict.get
get rows tenant_id record_id = do
  require_tenant tenant_id
  ok (owned (Dict.get rows record_id) tenant_id)

-- `entry.get(name) == ticket`, for an entry that is a dictionary.
abbrev pub field_is : Fields → String → String → Bool
field_is Fields.end name ticket = false
field_is (Fields.field k (Value.str s) r) name ticket =
    if str_eq k name then str_eq s ticket else field_is r name ticket
field_is (Fields.field k v r) name ticket = if str_eq k name then false else field_is r name ticket

abbrev pub entry_holds : String → Value → Bool
entry_holds ticket (Value.obj d) =
    field_is d "ticket_id" ticket || field_is d "ticket_number" ticket
entry_holds ticket v = false

abbrev pub reason_is : Option String → String → Bool
reason_is none s = str_eq "" s
reason_is (some t) s = str_eq t s

unfoldable pub holds_ticket : Row → String → Bool
unfolding concat
holds_ticket row ticket =
    not (str_eq ticket "")
    && (reason_is row.base.resolve_reason (concat ("escalated:" ∷ ticket ∷ []))
        || some_of (entry_holds ticket) row.base.evidence)

unfoldable pub ticket_row : Rows → String → String → Option Row
unfolding holds_ticket
ticket_row [] tenant_id ticket = none
ticket_row ((id, row) ∷ rows) tenant_id ticket =
    if str_eq row.base.tenant_id tenant_id && holds_ticket row ticket
    then some row
    else ticket_row rows tenant_id ticket

unfoldable pub find_by_ticket : Rows → String → String → Result (Option Row)
unfolding ticket_row
find_by_ticket rows tenant_id ticket = do
  require_tenant tenant_id
  ok (ticket_row rows tenant_id ticket)

abbrev pub ended : Option Row → ℕ → String → String → Rows → String → Rows
ended none now state reason rows record_id = rows
ended (some row) now state reason rows record_id = Dict.put rows record_id (record row {
  base = record row.base { state = state; resolved_at = some now; resolve_reason = some reason };
})

unfoldable pub set_terminal_state : Rows → ℕ → String → String → String → String → Result Rows
unfolding Dict.get Dict.put
set_terminal_state rows now tenant_id record_id state reason = do
  require_tenant tenant_id
  ok (ended (owned (Dict.get rows record_id) tenant_id) now state reason rows record_id)

unfoldable pub resolve : Rows → ℕ → String → String → String → Result Rows
unfolding set_terminal_state
resolve rows now tenant_id record_id reason =
    set_terminal_state rows now tenant_id record_id "resolved" reason

unfoldable pub close : Rows → ℕ → String → String → String → Result Rows
unfolding set_terminal_state
close rows now tenant_id record_id reason =
    set_terminal_state rows now tenant_id record_id "closed" reason

unfoldable pub mark_escalated : Rows → ℕ → String → String → String → Result Rows
unfolding set_terminal_state
mark_escalated rows now tenant_id record_id reason =
    set_terminal_state rows now tenant_id record_id "escalated" reason

-- The evidence entry of a run.
unfoldable pub agent_run : ℕ → String → String → Value
unfolding fields
agent_run now run_id workflow_id = Value.obj (
    fields (
      ("type", Value.str "agent_run")
      ∷ ("run_id", Value.str run_id)
      ∷ ("workflow_id", Value.str workflow_id)
      ∷ ("started_at", Value.time now)
      ∷ []))

abbrev pub with_evidence : ProblemRecord → Value → ProblemRecord
with_evidence r entry = record r { evidence = r.evidence ++ entry ∷ [] }

abbrev pub claimed : Option Row → Value → Rows → String → Bool × Rows
claimed none entry rows record_id = (false, rows)
claimed (some row) entry rows record_id =
    if str_eq row.base.state "pending"
    then (
      true,
      Dict.put rows record_id
          (record row { base = record (with_evidence row.base entry) { state = "in_progress" } }),
    )
    else (false, rows)

unfoldable pub mark_in_progress :
    Rows → ℕ → String → String → String → String → Result (Bool × Rows)
unfolding Dict.get Dict.put agent_run
mark_in_progress rows now tenant_id record_id run_id workflow_id = do
  require_tenant tenant_id
  ok (
      claimed (owned (Dict.get rows record_id) tenant_id) (agent_run now run_id workflow_id) rows
        record_id)

abbrev pub appended : Option Row → Value → Rows → String → Bool × Rows
appended none entry rows record_id = (false, rows)
appended (some row) entry rows record_id =
    (true, Dict.put rows record_id (record row { base = with_evidence row.base entry }))

unfoldable pub append_evidence : Rows → String → String → Value → Result (Bool × Rows)
unfolding Dict.get Dict.put
append_evidence rows tenant_id record_id entry = do
  require_tenant tenant_id
  ok (appended (owned (Dict.get rows record_id) tenant_id) entry rows record_id)

unfoldable pub list_tenants : Rows → List String
unfolding distinct_texts sorted
list_tenants rows = sorted (distinct_texts (map (λ e. e.1.base.tenant_id) rows))
