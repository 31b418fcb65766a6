-- ===== src/Router/Problems/TicketStatus.antt =====
-- src/aiops_apm/router/problems.py, report_ticket_status: the repair workflow reports on a ticket.
pub mod Effect
pub mod Replay
use aiops_apm_anomaly_detect.Prelude.{
  ℕ, String, Bool, true, false, not, ◌&&◌, Option, none, some, List, [], ◌∷◌, some_of, str_eq,
  if◌then◌else◌,
}
use aiops_apm_anomaly_detect.Prelude.Strip.{strip}
use aiops_apm_anomaly_detect.Prelude.Text.{concat}
use aiops_apm_anomaly_detect.Errors.{Error, Result, ok, err, ◌>>=◌, ◌>>◌, guard}
use aiops_apm_anomaly_detect.Models.Value.{Value, fields, lookup, entry_get, is_text}
use aiops_apm_anomaly_detect.Storage.Records.{Row, Rows, append_evidence, find_by_ticket, resolve}
use aiops_apm_anomaly_detect.Router.Evidence.{has_type}
use aiops_apm_anomaly_detect.Router.Outbound.{validation, not_found}

pub data TicketStatus : Type 0 where
  resolved insufficient failed : TicketStatus

-- A status, as the body spells it.
abbrev pub status_text : TicketStatus → String
status_text resolved = "resolved"
status_text insufficient = "insufficient"
status_text failed = "failed"

abbrev pub is_resolved : TicketStatus → Bool
is_resolved resolved = true
is_resolved insufficient = false
is_resolved failed = false

pub record TicketStatusBody : Type 0 where
  pub ticket_id : String
  pub status : TicketStatus
  pub description : String

pub data TicketReply : Type 0 where
  duplicate : (record_id state : String) → TicketReply
  recorded :
      (record_id ticket_id status state : String)
      → (state_changed : Bool) → (note : String) → TicketReply

unfoldable pub status_entry : ℕ → String → String → String → Value
unfolding fields
status_entry now ticket status description = Value.obj (
    fields (
      ("type", Value.str "ticket_status")
      ∷ ("ticket_id", Value.str ticket)
      ∷ ("status", Value.str status)
      ∷ ("description", Value.str description)
      ∷ ("reported_at", Value.time now)
      ∷ []))

unfoldable pub same_ticket_status : String → String → String → Value → Bool
unfolding lookup
same_ticket_status ticket status description e =
    has_type "ticket_status" e
    && (is_text (entry_get e "ticket_id") ticket
        && (is_text (entry_get e "status") status
            && is_text (entry_get e "description") description))

abbrev pub note_of : TicketStatus → String → String
unfolding concat
note_of resolved state =
    if str_eq state "escalated"
    then "修复已落地，问题单置 resolved"
    else concat ("问题单已是 " ∷ state ∷ "，仅追加证据、不改状态（人的裁定优先于回传）" ∷ [])
note_of insufficient state = "修复未完成，问题单保持 escalated 等人处理"
note_of failed state = "修复未完成，问题单保持 escalated 等人处理"

abbrev pub holder : String → Option Row → Result Row
unfolding concat
holder ticket none = err (not_found (concat ("没有持有工单 " ∷ ticket ∷ " 的问题单" ∷ [])))
holder ticket (some row) = ok row

-- Only a repair that is done closes a record, and only one that still waits for it.
abbrev pub closes : TicketStatus → Row → Bool
closes status row = is_resolved status && str_eq row.base.state "escalated"

-- The branch for a report that is new.
unfoldable pub take_report :
    Rows → ℕ → String → String → TicketStatusBody → Row → Result (Rows × TicketReply)
unfolding append_evidence resolve concat status_entry
take_report rows now tenant_id ticket body row =
    let entry = status_entry now ticket (status_text body.status) body.description in
    let id = row.base.record_id in
    do
      (found, written) ← append_evidence rows tenant_id id entry
      after ←
          if closes body.status row
          then resolve written now tenant_id id (concat ("agentflow:resolved:" ∷ ticket ∷ []))
          else ok written
      ok (
        after,
        recorded id ticket (status_text body.status)
            (if closes body.status row then "resolved" else row.base.state) (closes body.status row)
            (note_of body.status row.base.state),
      )

-- A report that the record has already is not taken twice.
unfoldable pub weigh_report :
    Rows → ℕ → String → String → TicketStatusBody → Row → Result (Rows × TicketReply)
unfolding take_report same_ticket_status
weigh_report rows now tenant_id ticket body row =
    if some_of (same_ticket_status ticket (status_text body.status) body.description)
      row.base.evidence
    then ok (rows, duplicate row.base.record_id row.base.state)
    else take_report rows now tenant_id ticket body row

unfoldable pub report_ticket_status :
    Rows → ℕ → String → TicketStatusBody → Result (Rows × TicketReply)
unfolding strip find_by_ticket weigh_report concat
report_ticket_status rows now tenant_id body =
    let ticket = strip body.ticket_id in
    do
      guard (not (str_eq ticket "")) (validation "ticket_id 不能为空")
      found ← find_by_ticket rows tenant_id ticket
      row ← holder ticket found
      weigh_report rows now tenant_id ticket body row
