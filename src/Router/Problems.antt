-- ===== src/Router/Problems.antt =====
-- src/aiops_apm/router/problems.py: what the handlers share. A handler takes the rows of the record
-- store and gives the rows after it and its reply, or what it raised.
pub mod TicketStatus
pub mod Fetched
pub mod Window
pub mod Runs
pub mod Escalate
pub mod Manual
pub mod Listing
use aiops_apm_anomaly_detect.Prelude.{
  String, Bool, ◌||◌, Option, none, some, List, [], ◌∷◌, is_nonempty, str_eq, if◌then◌else◌,
}
use aiops_apm_anomaly_detect.Prelude.Text.{concat}
use aiops_apm_anomaly_detect.Prelude.Split.{split_commas}
use aiops_apm_anomaly_detect.Errors.{Error, Result, ok, err, ◌>>=◌}
use aiops_apm_anomaly_detect.Storage.Records as Records
use aiops_apm_anomaly_detect.Storage.Records.{Row, Rows}
use aiops_apm_anomaly_detect.Router.Outbound.{not_found}

-- `state in _TERMINAL_STATES`
abbrev pub is_terminal : String → Bool
is_terminal state =
    (str_eq state "resolved" || str_eq state "closed")
    || (str_eq state "archived" || str_eq state "escalated")

-- `rec.get("state") or "pending"`
abbrev pub state_of : Row → String
state_of row = if str_eq row.base.state "" then "pending" else row.base.state

abbrev pub first_part : List String → String
first_part [] = ""
first_part (s ∷ r) = s

unfoldable pub primary_service : Row → String
unfolding split_commas
primary_service row = first_part (split_commas row.base.service)

unfoldable pub detection_type : Row → String
detection_type row =
    if is_nonempty row.base.metric_anomalies
    then (if is_nonempty row.base.log_anomalies then "combined" else "metric")
    else (if is_nonempty row.base.log_anomalies then "log" else "unknown")

abbrev pub present : String → Option Row → Result Row
present record_id none = err (not_found (concat ("problem record not found: " ∷ record_id ∷ [])))
present record_id (some row) = ok row

-- `rec = await records.get(...)`, with 404 for a record that is not there.
unfoldable pub fetched : Rows → String → String → Result Row
unfolding Records.get concat
fetched rows tenant_id record_id = Records.get rows tenant_id record_id >>= present record_id
