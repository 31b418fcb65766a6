-- ===== src/Tests/Manual.antt =====
-- Concrete inputs for the theorems on the other handlers of src/aiops_apm/router/problems.py: those by
-- which a person ends a record, and the list.
use aiops_apm_anomaly_detect.Prelude.{
  ◌≡◌, refl, subst, not, String, true, false, none, some, [], ◌∷◌, map, ◌&&◌, if◌then◌else◌, str_eq,
}
use aiops_apm_anomaly_detect.Prelude.Dict as Dict
use aiops_apm_anomaly_detect.Prelude.Dict.{string_key}
use aiops_apm_anomaly_detect.Prelude.Strip.{strip, lstrip, rstrip}
use aiops_apm_anomaly_detect.Errors.{ok, err}
use aiops_apm_anomaly_detect.Storage.Records.{Row}
use aiops_apm_anomaly_detect.Storage.Dynamic.Fpr.{FprTable}
use aiops_apm_anomaly_detect.Router.Problems.Manual.{Stores, resolve_problem, ignore_problem}
use aiops_apm_anomaly_detect.Router.Problems.Manual.Verdicts.{
  Judged, resolved_row, resolve_problem-Judged,
}
use aiops_apm_anomaly_detect.Router.Problems.Manual.Hidden.{missing, handlers-hidden}
use aiops_apm_anomaly_detect.Router.Problems.Runs.{analyze_problem, record_run_decision}
use aiops_apm_anomaly_detect.Router.Problems.Escalate.{escalate_problem}
use aiops_apm_anomaly_detect.Router.Evidence.{has_type, created_ticket}
use aiops_apm_anomaly_detect.Router.Problems.Listing.{
  slim, strip_decision_snapshots, strip_decision_snapshots-evidence,
}
use mathlib.Core.Option as Option
use aiops_apm_anomaly_detect.Models.Value.{Value, fields, entry_get}
use aiops_apm_anomaly_detect.Tests.{row, problem}
use aiops_apm_anomaly_detect.Tests.Settings.{arithmetic}
use aiops_apm_anomaly_detect.Tests.Analyses.{service, store, started, approval, call, store-Owned}

abbrev stores : Stores
stores = record { rows = store; table = [] }

resolve_problem-Judged_example :
    (after : FprTable) × (resolve_problem arithmetic stores 9 "t" "PR-1" true ≡ (
      record { rows = Dict.put store "PR-1" (resolved_row row 9); table = after },
      ok (not (str_eq row.group_key "")),
    ))
    × Judged arithmetic [] after "t" row.group_key true
resolve_problem-Judged_example =
    resolve_problem-Judged arithmetic stores 9 "t" "PR-1" true row store-Owned

foreign : (r : Row) → Dict.get store "PR-1" ≡ some r → str_eq r.base.tenant_id "u" ≡ false
unfolding Dict.get row problem
foreign r there =
    let same : row ≡ r = cc in subst (λ q. str_eq q.base.tenant_id "u" ≡ false) same refl

handlers-hidden_example :
    (resolve_problem arithmetic stores 9 "u" "PR-1" true ≡ (stores, err (missing "PR-1")))
    × (ignore_problem store 9 "u" "PR-1" ≡ (store, err (missing "PR-1")))
    × (record_run_decision store 9 "u" "PR-1" approval ≡ (store, err (missing "PR-1")))
    × (analyze_problem service store store 9 "u" "PR-1" "flow" true started
        ≡ (store, err (missing "PR-1")))
    × (escalate_problem service store [] "u" "PR-1" call ≡ ([], store, err (missing "PR-1")))
unfolding strip lstrip rstrip
handlers-hidden_example =
    handlers-hidden arithmetic service stores store [] 9 "u" "PR-1" "flow" true approval started
      call refl refl foreign

-- A record with a decision on a diagnosis and its snapshot.
abbrev snapped : Row
unfolding fields
snapped = record row {
  base = record row.base {
    evidence =
        Value.obj (
          fields (
            ("type", Value.str "diagnose_decision")
            ∷ ("decision", Value.str "escalate")
            ∷ ("ticket_id", Value.str "T-1")
            ∷ ("snapshot", Value.str "all of it")
            ∷ []))
        ∷ [];
  };
}

strip_decision_snapshots-evidence_example :
    (strip_decision_snapshots snapped
      ≡ record snapped { base = record snapped.base { evidence = map slim snapped.base.evidence } })
    × ((e : Value) (key : String)
        → entry_get (slim e) key ≡ (
            if has_type "diagnose_decision" e && str_eq "snapshot" key
            then none
            else entry_get e key))
    × (created_ticket (strip_decision_snapshots snapped).base.evidence
        ≡ Option.map slim (created_ticket snapped.base.evidence))
strip_decision_snapshots-evidence_example = strip_decision_snapshots-evidence snapped
