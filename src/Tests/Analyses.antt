-- ===== src/Tests/Analyses.antt =====
-- Concrete inputs for the theorems on the analysis and the escalation of a record in
-- src/aiops_apm/router/problems.py.
use aiops_apm_anomaly_detect.Prelude.{
  ◌+◌, ◌-◌, ◌≤◌, ◌≡◌, ◌⊎◌, refl, arith, true, false, none, some, [], ◌∷◌,
}
use aiops_apm_anomaly_detect.Prelude.Dict as Dict
use aiops_apm_anomaly_detect.Prelude.Dict.{string_key, text_pair_key}
use aiops_apm_anomaly_detect.Prelude.Text.{concat}
use aiops_apm_anomaly_detect.Prelude.Strip.{strip, lstrip, rstrip}
use aiops_apm_anomaly_detect.Errors.{ok}
use aiops_apm_anomaly_detect.Models.Value.{Value, fields}
use aiops_apm_anomaly_detect.Storage.Records.{
  Row, Rows, agent_run, append_evidence, mark_in_progress, mark_escalated, set_terminal_state,
}
use aiops_apm_anomaly_detect.Storage.Records.Writes.{Owned, noted_row, claimed_row}
use aiops_apm_anomaly_detect.Storage.Sequence.{Counters, bump, next_ticket_number}
use aiops_apm_anomaly_detect.Models.Record.{ProblemRecord}
use aiops_apm_anomaly_detect.Router.Outbound.{Outcome, answered}
use aiops_apm_anomaly_detect.Router.Problems.{primary_service, fetched}
use aiops_apm_anomaly_detect.Router.Evidence.{run_decisions, created_ticket}
use aiops_apm_anomaly_detect.Router.Problems.Window.{
  analysis_window, analysis_window_bounds, window_min, window_max, window_pad, first_seen,
  last_seen,
}
use aiops_apm_anomaly_detect.Router.Problems.Runs.{
  Service, RunDecisionBody, RunDecisionReply, analyze_problem, analysis_guards, started_run,
  bind_run, decision_entry, decides, record_run_decision,
}
use aiops_apm_anomaly_detect.Router.Problems.Runs.Binding.{Analysis, analyze_problem-Analysis}
use aiops_apm_anomaly_detect.Router.Problems.Runs.Decisions.{record_run_decision-once}
use aiops_apm_anomaly_detect.Router.Problems.Escalate.{
  Call, Created, create_ticket, escalate_problem, escalation_guards, resolve_workflow_id,
  apply_escalated_state, escalation_entry,
}
use aiops_apm_anomaly_detect.Router.Problems.Escalate.Once.{Settled, escalate_problem-once}
use aiops_apm_anomaly_detect.Tests.{row, problem}

-- A service that answers.
abbrev pub service : Service
service = record {
  show_value = λ v. "x";
  show_int = λ n. "n";
  show_padded = λ n. "0001";
  timeout_reason = "late";
  timeout_text = "timeout";
  gateway = ok tt;
}

abbrev pub store : Rows
store = ("PR-1", row) ∷ []

abbrev pub started : Outcome
unfolding fields
started = answered (record {
  status_code = 200;
  json = some (Value.obj (fields (("run_id", Value.str "run-1") ∷ [])));
  text = "";
})

abbrev analysed : Rows
analysed = ("PR-1", claimed_row row (agent_run 9 "run-1" "flow")) ∷ []

analyze_runs :
    analyze_problem service store store 9 "t" "PR-1" "flow" false started
    ≡ (analysed, ok ("in_progress", "run-1"))
unfolding analyze_problem analysis_guards started_run bind_run fetched primary_service
    mark_in_progress strip lstrip rstrip concat Dict.get Dict.put row problem
analyze_runs = refl

analyze_problem-Analysis_example : Analysis store store analysed "t" "PR-1" "run-1"
unfolding Dict.get row problem
analyze_problem-Analysis_example =
    analyze_problem-Analysis service store store analysed 9 "t" "PR-1" "flow" "in_progress" "run-1"
      false started analyze_runs

abbrev pub approval : RunDecisionBody
approval = record {
  run_id = "run-1";
  node_id = "";
  approved = true;
  decided_by = "ann";
  comment = "";
}

abbrev first_reply : RunDecisionReply
first_reply = record {
  run_id = "run-1";
  node_id = "approve-plan";
  approved = true;
  recorded = true;
}

abbrev decided : Rows
decided = ("PR-1", noted_row row (decision_entry 9 "run-1" "approve-plan" approval)) ∷ []

decision_runs : record_run_decision store 9 "t" "PR-1" approval ≡ (decided, ok first_reply)
unfolding record_run_decision fetched run_decisions append_evidence decides strip lstrip rstrip
    concat Dict.get Dict.put row problem
decision_runs = refl

-- Another decision on the same node, by another person.
abbrev refusal : RunDecisionBody
refusal = record {
  run_id = "run-1 ";
  node_id = "approve-plan";
  approved = false;
  decided_by = "bob";
  comment = "no";
}

record_run_decision-once_example :
    record_run_decision decided 20 "t" "PR-1" refusal
    ≡ (decided, ok (record first_reply { recorded = false }))
unfolding row problem strip lstrip rstrip
record_run_decision-once_example =
    record_run_decision-once "t" "PR-1" approval refusal store 9 20 decided first_reply
      decision_runs refl refl

abbrev pub ticket_made : Outcome
unfolding fields
ticket_made = answered (record {
  status_code = 201;
  json = some (
      Value.obj
        (fields (("id", Value.str "T-1") ∷ ("number", Value.str "INC-20250101-0001") ∷ [])));
  text = "";
})

abbrev pub call : Call
call = record {
  now = 9;
  seq_date = "20250101";
  workflow_name = "";
  listing = none;
  answer = λ number. ticket_made;
  later = store;
}

abbrev created : Created
created = record { ticket_id = "T-1"; ticket_number = "INC-20250101-0001" }

abbrev handed : Row
handed =
    let noted = noted_row row (escalation_entry 9 created "") in
    record noted {
      base = record noted.base {
        state = "escalated";
        resolved_at = some 9;
        resolve_reason = some "escalated:INC-20250101-0001";
      };
    }

abbrev handed_rows : Rows
handed_rows = ("PR-1", handed) ∷ []

abbrev counters : Counters
counters = (("INC", "20250101"), 1) ∷ []

escalate_runs :
    escalate_problem service store [] "t" "PR-1" call ≡ (counters, handed_rows, ok created)
unfolding escalate_problem escalation_guards resolve_workflow_id create_ticket append_evidence
    apply_escalated_state mark_escalated set_terminal_state bump next_ticket_number created_ticket
    fetched strip lstrip rstrip concat Dict.get Dict.put row problem
escalate_runs = refl

pub store-Owned : Owned store "t" "PR-1" row
unfolding Dict.get row problem
store-Owned = record { named = refl; found = refl; mine = refl }

escalate_problem-once_example : Settled service "t" "PR-1" call (handed_rows, created)
escalate_problem-once_example =
    escalate_problem-once service store handed_rows [] counters "t" "PR-1" call created row
      store-Owned escalate_runs

abbrev seen : ProblemRecord
unfolding problem
seen = record (problem "PR-1") {
  first_seen_at = some 200_000_000_000;
  last_seen_at = some 200_000_000_000;
}

analysis_window_bounds_example :
    let (start, end) = analysis_window 300_000_000_000 seen in
    (end ≤ 300_000_000_000)
    × (end ≤ last_seen seen + window_pad)
    × ((end ≡ 300_000_000_000) ⊎ (end ≡ last_seen seen + window_pad))
    × (start + window_min ≤ end)
    × (end ≤ start + window_max)
    × ((start ≤ first_seen seen - window_pad) ⊎ (end ≡ start + window_max))
    × ((first_seen seen - window_pad ≤ start) ⊎ (end ≡ start + window_min))
unfolding seen
analysis_window_bounds_example =
    analysis_window_bounds 300_000_000_000 seen (omega arith) (omega arith) (omega arith)
