-- ===== src/Router/Problems/TicketStatus/Replay.antt =====
-- Lemmas on reports of src/aiops_apm/router/problems.py on a ticket, and on the same report again.
use aiops_apm_anomaly_detect.Prelude.{
  ℕ, ◌≡◌, refl, sym, ap, subst, ◌∙◌, ◌⊎◌, inl, inr, String, Bool, true, false, some, arith,
  Bool-cases, Option-cases, some_of, str_eq, str_eq_iff,
}
use aiops_apm_anomaly_detect.Prelude.Dict as Dict
use aiops_apm_anomaly_detect.Prelude.Dict.{string_key, get-put}
use aiops_apm_anomaly_detect.Prelude.Strip.{strip}
use aiops_apm_anomaly_detect.Errors.{ok}
use aiops_apm_anomaly_detect.Storage.Records.{Row, Rows, ticket_row, find_by_ticket}
use aiops_apm_anomaly_detect.Storage.Records.Keyed.{Keyed, ticket_row-some, ticket_row-put}
use aiops_apm_anomaly_detect.Router.Problems.TicketStatus.{
  TicketStatusBody, TicketReply, duplicate, closes, is_resolved, status_text, same_ticket_status,
  take_report, weigh_report, report_ticket_status,
}
use aiops_apm_anomaly_detect.Router.Problems.TicketStatus.Effect.{
  reported, reply_to, take_report-eq, reported_fields, reported-holds, reported-same,
}

-- The report is in the evidence of the row.
abbrev is_known : TicketStatusBody → Row → Bool
is_known body row =
    some_of (same_ticket_status (strip body.ticket_id) (status_text body.status) body.description)
      row.base.evidence

module _ (tenant_id : String) (body : TicketStatusBody) where
  -- What a report that was accepted found.
  record Accepted (rows : Rows) (row : Row) : Type 0 where
    named : str_eq tenant_id "" ≡ false
    nonblank : str_eq (strip body.ticket_id) "" ≡ false
    found : ticket_row rows tenant_id (strip body.ticket_id) ≡ some row

  accepted_lem :
      (now : ℕ) (rows : Rows) (row : Row)
      → Accepted rows row
      → report_ticket_status rows now tenant_id body
        ≡ weigh_report rows now tenant_id (strip body.ticket_id) body row
  unfolding report_ticket_status find_by_ticket
  accepted_lem now rows row a = rw (a.nonblank, a.named, a.found) refl

  accepted :
      (now : ℕ) (rows : Rows) {after : Rows × TicketReply}
      → report_ticket_status rows now tenant_id body ≡ ok after
      → (row : Row) × Accepted rows row
  unfolding report_ticket_status find_by_ticket
  accepted now rows e = elim (Option-cases (ticket_row rows tenant_id (strip body.ticket_id))) [
    | inl missing ↦ absurd (ground arith)
    | inr (row, found) ↦
        (row, record { named = ground arith; nonblank = ground arith; found = found })
  ]

  module _ (now : ℕ) (rows : Rows) (row : Row) (keyed : Keyed rows) (a : Accepted rows row) where
    -- A report is known already, or it is written into the row that holds the ticket.
    report_cases :
        {after : Rows × TicketReply}
        → report_ticket_status rows now tenant_id body ≡ ok after
        → ((is_known body row ≡ true) × (after.0 ≡ rows))
          ⊎ (after.0
              ≡ Dict.put rows row.base.record_id (reported now (strip body.ticket_id) body row))
    unfolding weigh_report
    report_cases {after} e =
        let weighed = sym (accepted_lem now rows row a) ∙ e in
        let (found, mine, holds) =
          ticket_row-some tenant_id (strip body.ticket_id) rows row keyed a.found in
        elim (Bool-cases (is_known body row)) [
          | inl known ↦
              let same : ok (rows, duplicate row.base.record_id row.base.state) ≡ ok after =
                rw known at weighed in
              let same_pair : (rows, duplicate row.base.record_id row.base.state) ≡ after = cc in
              inl (known, sym (ap (λ (u : Rows × TicketReply). u.0) same_pair))
          | inr new ↦
              let taken : take_report rows now tenant_id (strip body.ticket_id) body row
                  ≡ ok after =
                rw new at weighed in
              let same : ok (
                Dict.put rows row.base.record_id (reported now (strip body.ticket_id) body row),
                reply_to (strip body.ticket_id) body row,
              )
                  ≡ ok after =
                sym (
                  take_report-eq now tenant_id (strip body.ticket_id) body a.named rows row found
                    mine)
                ∙ taken in
              inr (ground arith)
        ]

module _ (tenant_id : String) (body : TicketStatusBody) where
  -- When a report on a ticket was taken, over rows that stand under their own ids, then the same
  -- report sent again, at any later time, changes nothing and is answered as a duplicate.
  pub report_ticket_status-replay :
      (now later : ℕ) (rows : Rows) (after : Rows × TicketReply)
      → Keyed rows
      → report_ticket_status rows now tenant_id body ≡ ok after
      → (row : Row) × (report_ticket_status after.0 later tenant_id body
          ≡ ok (after.0, duplicate row.base.record_id row.base.state))
  unfolding weigh_report
  report_ticket_status-replay now later rows after keyed e =
      let (row, a) = accepted tenant_id body now rows e in
      let ticket = strip body.ticket_id in
      elim (report_cases tenant_id body now rows row keyed a e) [
        | inl (known, same) ↦
            let again : Accepted tenant_id body after.0 row = record {
              named = a.named;
              nonblank = a.nonblank;
              found = rw same a.found;
            } in
            (row, accepted_lem tenant_id body later after.0 row again ∙ (rw known refl))
        | inr written ↦
            let new = reported now ticket body row in
            let (found, mine, holds) = ticket_row-some tenant_id ticket rows row keyed a.found in
            let (same_id, same_tenant, evidence) =
              reported_fields now tenant_id ticket body a.named row in
            let again : Accepted tenant_id body after.0 new = record {
              named = a.named;
              nonblank = a.nonblank;
              found = rw written (
                  ticket_row-put tenant_id ticket rows row new keyed a.found (rw same_tenant mine)
                    (reported-holds now tenant_id ticket body a.named row a.nonblank));
            } in
            let known : is_known body new ≡ true =
              reported-same now tenant_id ticket body a.named row in
            (new, accepted_lem tenant_id body later after.0 new again ∙ (rw known refl))
      ]

  -- The state before and after: kept, or closed by a repair that is done.
  abbrev pub Verdict : Row → Row → Type 0
  Verdict row new =
      (new.base.state ≡ row.base.state)
      ⊎ ((row.base.state ≡ "escalated")
          × (new.base.state ≡ "resolved")
          × (is_resolved body.status ≡ true))

  reported-Verdict :
      (now : ℕ) (ticket : String) (row : Row) → Verdict row (reported now ticket body row)
  unfolding reported
  reported-Verdict now ticket row = elim (Bool-cases (closes body.status row)) [
    | inl c ↦ rw c (inr (ground (arith, str_eq_iff row.base.state "escalated"), refl, ground arith))
    | inr c ↦ rw c (inl refl)
  ]

  -- When a report was taken, over rows that stand under their own ids, each record still stands,
  -- and its state is as before, or went from "escalated" to "resolved" by a report that the repair
  -- is done. So no report changes the state of a record that is not escalated.
  pub report_ticket_status-Verdict :
      (now : ℕ) (rows : Rows) (after : Rows × TicketReply)
      → Keyed rows
      → report_ticket_status rows now tenant_id body ≡ ok after
      → (id : String) (old : Row) → Dict.get rows id ≡ some old
      → (new : Row) × (Dict.get after.0 id ≡ some new) × Verdict old new
  report_ticket_status-Verdict now rows after keyed e id old stood =
      let (row, a) = accepted tenant_id body now rows e in
      let ticket = strip body.ticket_id in
      elim (report_cases tenant_id body now rows row keyed a e) [
        | inl (known, same) ↦ (old, rw same stood, inl refl)
        | inr written ↦
            let new = reported now ticket body row in
            let (found, mine, holds) = ticket_row-some tenant_id ticket rows row keyed a.found in
            let put_here = get-put rows row.base.record_id id new in
            elim (Bool-cases (str_eq row.base.record_id id)) [
              | inl here ↦
                  let same : some row ≡ some old =
                    sym found ∙ (rw ((str_eq_iff row.base.record_id id).0 here) stood) in
                  let same_row : row ≡ old = cc in
                  (
                    new,
                    rw written (put_here ∙ (rw here refl)),
                    subst (λ (u : Row). Verdict u new) same_row (reported-Verdict now ticket row),
                  )
              | inr there ↦ (old, rw written (put_here ∙ (rw there stood)), inl refl)
            ]
      ]
