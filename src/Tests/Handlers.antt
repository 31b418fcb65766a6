-- ===== src/Tests/Handlers.antt =====
-- Concrete inputs for the theorems on the handlers of src/aiops_apm/router.
use aiops_apm_anomaly_detect.Prelude.{◌≡◌, refl, some, [], ◌∷◌}
use aiops_apm_anomaly_detect.Prelude.Dict as Dict
use aiops_apm_anomaly_detect.Prelude.Dict.{string_key}
use aiops_apm_anomaly_detect.Prelude.Text.{concat}
use aiops_apm_anomaly_detect.Prelude.Strip.{strip, lstrip, rstrip}
use aiops_apm_anomaly_detect.Errors.{ok}
use aiops_apm_anomaly_detect.Storage.Records.{
  Row, Rows, append_evidence, find_by_ticket, ticket_row, holds_ticket, resolve, set_terminal_state,
}
use aiops_apm_anomaly_detect.Router.Problems.TicketStatus.{
  TicketStatus, TicketStatusBody, duplicate, take_report, weigh_report, report_ticket_status,
  same_ticket_status,
}
use aiops_apm_anomaly_detect.Router.Problems.TicketStatus.Effect.{reported, reply_to}
use aiops_apm_anomaly_detect.Router.Problems.TicketStatus.Replay.{
  Verdict, report_ticket_status-replay, report_ticket_status-Verdict,
}
use aiops_apm_anomaly_detect.Tests.{row, problem}

-- A record that waits for the repair of the ticket "T-1".
abbrev escalated : Row
escalated = record row {
  base = record row.base {
    state = "escalated";
    resolve_reason = some "escalated:T-1";
    evidence = [];
  };
}

abbrev waiting : Rows
waiting = ("PR-1", escalated) ∷ []

abbrev body : TicketStatusBody
body = record { ticket_id = " T-1"; status = TicketStatus.resolved; description = "fixed" }

abbrev closed : Row
unfolding reported
closed = reported 7 "T-1" body escalated

abbrev repaired : Rows
unfolding reported
repaired = ("PR-1", closed) ∷ []

report_runs : report_ticket_status waiting 7 "t" body ≡ ok (repaired, reply_to "T-1" body escalated)
unfolding report_ticket_status find_by_ticket ticket_row holds_ticket strip lstrip rstrip
    weigh_report take_report same_ticket_status append_evidence resolve set_terminal_state Dict.get
    Dict.put concat row problem repaired
report_runs = refl

report_ticket_status-replay_example :
    (found : Row) × (report_ticket_status repaired 9 "t" body
      ≡ ok (repaired, duplicate found.base.record_id found.base.state))
unfolding Dict.get row problem
report_ticket_status-replay_example =
    report_ticket_status-replay "t" body 7 9 waiting (repaired, reply_to "T-1" body escalated)
      ((refl, tt), (refl, tt)) report_runs

report_ticket_status-Verdict_example :
    (new : Row) × (Dict.get repaired "PR-1" ≡ some new) × Verdict "t" body escalated new
unfolding Dict.get row problem
report_ticket_status-Verdict_example =
    report_ticket_status-Verdict "t" body 7 waiting (repaired, reply_to "T-1" body escalated)
      ((refl, tt), (refl, tt)) report_runs "PR-1" escalated refl
