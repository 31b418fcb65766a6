-- ===== src/Router/Problems/TicketStatus/Effect.antt =====
-- Lemmas on what report_ticket_status of src/aiops_apm/router/problems.py writes.
use aiops_apm_anomaly_detect.Prelude.{
  ℕ, ◌≡◌, refl, ◌∙◌, inl, inr, String, true, false, some, [], ◌∷◌, ◌++◌, arith, Bool-cases, some_of,
  some_of-append, if◌then◌else◌, str_eq, str_eq_refl,
}
use aiops_apm_anomaly_detect.Prelude.Dict as Dict
use aiops_apm_anomaly_detect.Prelude.Dict.{string_key, get-put}
use aiops_apm_anomaly_detect.Prelude.Text.{concat}
use aiops_apm_anomaly_detect.Errors.{ok}
use aiops_apm_anomaly_detect.Models.Value.{fields, lookup}
use aiops_apm_anomaly_detect.Storage.Records.{
  Row, Rows, append_evidence, resolve, set_terminal_state, with_evidence, holds_ticket, entry_holds,
}
use aiops_apm_anomaly_detect.Storage.Records.Keyed.{put-put}
use aiops_apm_anomaly_detect.Router.Problems.TicketStatus.{
  TicketStatusBody, TicketReply, recorded, closes, status_text, note_of, status_entry,
  same_ticket_status, take_report,
}

abbrev pub noted : ℕ → String → TicketStatusBody → Row → Row
noted now ticket body row = record row {
  base =
      with_evidence row.base (status_entry now ticket (status_text body.status) body.description);
}

-- The row after a report: the report is noted, and a record that waits for the repair is closed.
unfoldable pub reported : ℕ → String → TicketStatusBody → Row → Row
unfolding concat status_entry
reported now ticket body row =
    if closes body.status row
    then record row {
      base = record (noted now ticket body row).base {
        state = "resolved";
        resolved_at = some now;
        resolve_reason = some (concat ("agentflow:resolved:" ∷ ticket ∷ []));
      };
    }
    else noted now ticket body row

abbrev pub reply_to : String → TicketStatusBody → Row → TicketReply
reply_to ticket body row =
    recorded row.base.record_id ticket (status_text body.status)
      (if closes body.status row then "resolved" else row.base.state) (closes body.status row)
      (note_of body.status row.base.state)

module _ (now : ℕ) (tenant_id ticket : String) (body : TicketStatusBody)
    (named : str_eq tenant_id "" ≡ false) where
  pub take_report-eq :
      (rows : Rows) (row : Row)
      → Dict.get rows row.base.record_id ≡ some row
      → str_eq row.base.tenant_id tenant_id ≡ true
      → take_report rows now tenant_id ticket body row
        ≡ ok (
          Dict.put rows row.base.record_id (reported now ticket body row),
          reply_to ticket body row,
        )
  unfolding take_report reported append_evidence resolve set_terminal_state
  take_report-eq rows row found mine =
      let id = row.base.record_id in
      let again : Dict.get (Dict.put rows id (noted now ticket body row)) id
          ≡ some (noted now ticket body row) =
        get-put rows id id (noted now ticket body row) ∙ (rw (str_eq_refl id) refl) in
      elim (Bool-cases (closes body.status row)) [
        | inl c ↦ rw (named, found, mine, c) (rw (again, mine, put-put) refl)
        | inr c ↦ rw (named, found, mine, c) refl
      ]

  pub reported_fields :
      (row : Row)
      → ((reported now ticket body row).base.record_id ≡ row.base.record_id)
        × ((reported now ticket body row).base.tenant_id ≡ row.base.tenant_id)
        × ((reported now ticket body row).base.evidence
            ≡ row.base.evidence
              ++ status_entry now ticket (status_text body.status) body.description ∷ [])
  unfolding reported
  reported_fields row = elim (Bool-cases (closes body.status row)) [
    | inl c ↦ rw c (refl, refl, refl)
    | inr c ↦ rw c (refl, refl, refl)
  ]

  entry_holds_lem :
      (status description : String)
      → entry_holds ticket (status_entry now ticket status description) ≡ true
  unfolding status_entry fields
  entry_holds_lem status description = rw (str_eq_refl ticket) refl

  same_entry :
      (status description : String)
      → same_ticket_status ticket status description (status_entry now ticket status description)
        ≡ true
  unfolding same_ticket_status status_entry fields lookup
  same_entry status description =
      rw (str_eq_refl ticket, str_eq_refl status, str_eq_refl description) refl

  pub reported-holds :
      (row : Row)
      → str_eq ticket "" ≡ false
      → holds_ticket (reported now ticket body row) ticket ≡ true
  unfolding holds_ticket
  reported-holds row nonblank =
      let (same_id, same_tenant, evidence) = reported_fields row in
      ground (
        arith,
        evidence,
        some_of-append (entry_holds ticket) row.base.evidence
            (status_entry now ticket (status_text body.status) body.description ∷ []),
        entry_holds_lem (status_text body.status) body.description,
      )

  pub reported-same :
      (row : Row)
      → some_of
          (same_ticket_status ticket (status_text body.status) body.description)
          (reported now ticket body row).base.evidence
        ≡ true
  reported-same row =
      let (same_id, same_tenant, evidence) = reported_fields row in
      ground (
        arith,
        evidence,
        some_of-append (same_ticket_status ticket (status_text body.status) body.description)
            row.base.evidence
            (status_entry now ticket (status_text body.status) body.description ∷ []),
        same_entry (status_text body.status) body.description,
      )
