-- ===== src/Router/Problems/Escalate/Once.antt =====
-- Lemmas on repeated escalations of a record by src/aiops_apm/router/problems.py.
use aiops_apm_anomaly_detect.Prelude.{
  ℕ, ◌≡◌, refl, sym, ap, subst, ◌∙◌, inl, inr, String, Bool, true, false, Option, none, some, List,
  [], ◌∷◌, ◌++◌, arith, Bool-cases, str_eq, str_eq_refl,
}
use aiops_apm_anomaly_detect.Prelude.Dict as Dict
use aiops_apm_anomaly_detect.Prelude.Dict.{string_key, get-put}
use aiops_apm_anomaly_detect.Prelude.Strip.{strip}
use aiops_apm_anomaly_detect.Errors.{Error, ErrorCode, Result, ok, err, ◌>>=◌}
use aiops_apm_anomaly_detect.Models.Value.{Value, fields, lookup}
use aiops_apm_anomaly_detect.Storage.Records.{
  Row, Rows, append_evidence, mark_escalated, set_terminal_state,
}
use aiops_apm_anomaly_detect.Storage.Records.Writes.{Owned, noted_row, Owned-append_evidence}
use aiops_apm_anomaly_detect.Storage.Sequence.{Counters, next_ticket_number}
use aiops_apm_anomaly_detect.Router.Evidence.{created_ticket, is_escalation, first_entry}
use aiops_apm_anomaly_detect.Router.Outbound.{Outcome, timed_out, failed, answered}
use aiops_apm_anomaly_detect.Prelude.Text.{concat}
use aiops_apm_anomaly_detect.Router.Problems.Fetched.{Owned-fetched}
use aiops_apm_anomaly_detect.Router.Problems.Runs.{Service}
use aiops_apm_anomaly_detect.Router.Problems.Escalate.{
  Created, escalation_guards, create_ticket, escalation_entry, apply_escalated_state,
  escalate_problem, held_ticket, created_in, created_from, resolve_workflow_id, escalated_reason,
  Call, write_escalation, handed_over, numbered_call, evidence_written, state_written,
}

created_in-id :
    (s : Service) (id number : Option Value) (c : Created)
    → created_in s id number ≡ ok c
    → str_eq c.ticket_id "" ≡ false
unfolding created_in
created_in-id s id number c e = ground arith

created_from-id :
    (s : Service) (v : Option Value) (c : Created)
    → created_from s v ≡ ok c
    → str_eq c.ticket_id "" ≡ false
unfolding created_from created_in
created_from-id s none c e = absurd (ground arith)
created_from-id s (some (Value.obj d)) c e = created_in-id s (lookup d "id") (lookup d "number") c e
created_from-id s (some v) c e = ground (arith, created_in-id s none none c)

-- A created ticket has an id.
create_ticket-id :
    (s : Service) (outcome : Outcome) (c : Created)
    → create_ticket s outcome ≡ ok c
    → str_eq c.ticket_id "" ≡ false
unfolding create_ticket
create_ticket-id s timed_out c e = absurd (ground arith)
create_ticket-id s (failed text) c e = absurd (ground arith)
create_ticket-id s (answered r) c e = ground (arith, created_from-id s r.json c)

first_entry-some :
    (test : Value → Bool) (es : List Value) (e : Value)
    → test e ≡ true
    → (found : Value) × (first_entry test (es ++ e ∷ []) ≡ some found)
first_entry-some test [] e h = (e, rw h refl)
first_entry-some test (d ∷ es) e h = elim (Bool-cases (test d)) [
  | inl t ↦ (d, rw t refl)
  | inr t ↦ let (found, there) = first_entry-some test es e h in (found, rw t there)
]

escalation_entry-is_escalation :
    (now : ℕ) (c : Created) (name : String)
    → str_eq c.ticket_id "" ≡ false
    → is_escalation (escalation_entry now c name) ≡ true
unfolding escalation_entry fields lookup
escalation_entry-is_escalation now c name h = rw h refl

-- The record of the tenant holds a ticket.
abbrev Holds : Rows → String → String → Type 0
Holds rows tenant_id record_id =
    (row : Row) × Owned rows tenant_id record_id row
    × ((e : Value) × (created_ticket row.base.evidence ≡ some e))

-- Every escalation is refused as a conflict, and takes no number from the sequence.
abbrev Refused : Service → Rows → String → String → Type 0
Refused s rows tenant_id record_id =
    (text : String) × ((counters : Counters) (call : Call)
      → escalate_problem s rows counters tenant_id record_id call
        ≡ (counters, rows, err (Error.app_exception ErrorCode.conflict text)))

Holds-Refused :
    (s : Service) (rows : Rows) (tenant_id record_id : String)
    → Holds rows tenant_id record_id
    → Refused s rows tenant_id record_id
unfolding escalate_problem escalation_guards held_ticket numbered_call
Holds-Refused s rows tenant_id record_id (row, o, (e, held)) = (
  concat ("problem " ∷ record_id ∷ " already holds ticket " ∷ held_ticket s.show_value e ∷ []),
  λ counters call. rw (Owned-fetched rows tenant_id record_id row o, held) refl,
)

Holds-append_evidence :
    (rows : Rows) (tenant_id record_id : String) (row : Row) (entry : Value)
    → is_escalation entry ≡ true
    → Owned rows tenant_id record_id row
    → Holds (Dict.put rows record_id (noted_row row entry)) tenant_id record_id
unfolding created_ticket
Holds-append_evidence rows tenant_id record_id row entry h o = (
  noted_row row entry,
  record {
    named = o.named;
    found =
        get-put rows record_id record_id (noted_row row entry) ∙ (rw (str_eq_refl record_id) refl);
    mine = o.mine;
  },
  first_entry-some is_escalation row.base.evidence entry h,
)

-- The row of a record that was handed over.
abbrev escalated_row : Row → ℕ → String → Row
escalated_row row now reason = record row {
  base = record row.base {
    state = "escalated";
    resolved_at = some now;
    resolve_reason = some reason;
  };
}

mark_escalated-done :
    (rows : Rows) (now : ℕ) (tenant_id record_id reason : String) (row : Row)
    → Owned rows tenant_id record_id row
    → mark_escalated rows now tenant_id record_id reason
      ≡ ok (Dict.put rows record_id (escalated_row row now reason))
unfolding mark_escalated set_terminal_state
mark_escalated-done rows now tenant_id record_id reason row o = rw (o.named, o.found, o.mine) refl

Holds-mark_escalated :
    (rows after : Rows) (now : ℕ) (tenant_id record_id reason : String)
    → Holds rows tenant_id record_id
    → mark_escalated rows now tenant_id record_id reason ≡ ok after
    → Holds after tenant_id record_id
Holds-mark_escalated rows after now tenant_id record_id reason (row, o, held) e =
    let new = escalated_row row now reason in
    let put_row : Rows = Dict.put rows record_id new in
    let done : ok put_row ≡ ok after =
      sym (mark_escalated-done rows now tenant_id record_id reason row o) ∙ e in
    let same : put_row ≡ after = cc in
    subst (λ r. Holds r tenant_id record_id) same
      (
        new,
        record {
          named = o.named;
          found = get-put rows record_id record_id new ∙ (rw (str_eq_refl record_id) refl);
          mine = o.mine;
        },
        held,
      )

-- Neither the store after the writes nor the one between them allows a second escalation.
abbrev pub Settled : Service → String → String → Call → Rows × Created → Type 0
Settled s tenant_id record_id call (after, created) =
    Refused s after tenant_id record_id
    × ((noted : Rows) × (append_evidence call.later tenant_id record_id
            (escalation_entry call.now created (strip call.workflow_name))
          ≡ ok (true, noted))
        × Refused s noted tenant_id record_id)

state_written-ok :
    (s : Service) (tenant_id record_id : String) (call : Call) (noted : Rows) (c : Created)
    (m : Result Rows) (after : Rows) (created : Created)
    → state_written s tenant_id record_id call noted c m ≡ (after, ok created)
    → (m ≡ ok after) × (c ≡ created)
state_written-ok s tenant_id record_id call noted c (err failure) after created e =
    absurd (ground arith)
state_written-ok s tenant_id record_id call noted c (ok rows) after created e =
    (ground arith, ground arith)

write_escalation-Settled :
    (s : Service) (tenant_id record_id : String) (call : Call) (m : Result Created) (row : Row)
    (after : Rows) (created : Created)
    → Owned call.later tenant_id record_id row
    → ((c : Created) → m ≡ ok c → str_eq c.ticket_id "" ≡ false)
    → write_escalation s tenant_id record_id call m ≡ (after, ok created)
    → Settled s tenant_id record_id call (after, created)
unfolding apply_escalated_state write_escalation evidence_written
write_escalation-Settled s tenant_id record_id call (err failure) row after created o h e =
    absurd (ground arith)
write_escalation-Settled s tenant_id record_id call (ok c) row after created o h e =
    let entry = escalation_entry call.now c (strip call.workflow_name) in
    let noted : Rows = Dict.put call.later record_id (noted_row row entry) in
    let wrote : append_evidence call.later tenant_id record_id entry ≡ ok (true, noted) =
      Owned-append_evidence call.later tenant_id record_id entry row o in
    let holds : Holds noted tenant_id record_id =
      Holds-append_evidence call.later tenant_id record_id row entry
        (escalation_entry-is_escalation call.now c (strip call.workflow_name) (h c refl)) o in
    let state = apply_escalated_state noted call.now tenant_id record_id c.ticket_number in
    let (went, same) =
      state_written-ok s tenant_id record_id call noted c state after created (rw wrote at e) in
    subst (λ x. Settled s tenant_id record_id call (after, x)) same
      (
        Holds-Refused s after tenant_id record_id (
            Holds-mark_escalated noted after call.now tenant_id record_id
              (escalated_reason c.ticket_number) holds went),
        (noted, wrote, Holds-Refused s noted tenant_id record_id holds),
      )

handed_over-Settled :
    (s : Service) (tenant_id record_id number : String) (call : Call) (row : Row)
    (rows after : Rows) (created : Created) (gateway : Result (Unit {0}))
    → Owned call.later tenant_id record_id row
    → handed_over s tenant_id record_id call rows number gateway ≡ (after, ok created)
    → Settled s tenant_id record_id call (after, created)
unfolding handed_over
handed_over-Settled s tenant_id record_id number call row rows after created (err failure) o e =
    absurd (ground arith)
handed_over-Settled s tenant_id record_id number call row rows after created (ok allowed) o e =
    write_escalation-Settled s tenant_id record_id call (create_ticket s (call.answer number)) row
      after created o (create_ticket-id s (call.answer number)) e

numbered_call-Settled :
    (s : Service) (tenant_id record_id : String) (call : Call) (counters taken : Counters)
    (first : Result String) (row : Row) (rows after : Rows) (created : Created)
    → Owned call.later tenant_id record_id row
    → numbered_call s tenant_id record_id call rows counters first ≡ (taken, after, ok created)
    → Settled s tenant_id record_id call (after, created)
unfolding numbered_call
numbered_call-Settled s tenant_id record_id call counters taken (err failure) row rows after created
      o e =
    absurd (ground arith)
numbered_call-Settled s tenant_id record_id call counters taken (ok w) row rows after created o e =
    let (number, next) = next_ticket_number s.show_padded counters call.seq_date in
    handed_over-Settled s tenant_id record_id number call row rows after created s.gateway o
      (ap (λ p. (p.1, p.2)) e)

-- When an escalation of a record was answered, and its tenant owned the record when the ticket was
-- there, then every later escalation of the record over the store it left is refused as a conflict,
-- takes no number from the sequence and writes nothing: no second ticket is created. The same holds
-- over the store that has the evidence of the first escalation and not yet its state.
pub escalate_problem-once :
    (s : Service) (rows after : Rows) (counters taken : Counters) (tenant_id record_id : String)
    (call : Call) (created : Created) (row : Row)
    → Owned call.later tenant_id record_id row
    → escalate_problem s rows counters tenant_id record_id call ≡ (taken, after, ok created)
    → Settled s tenant_id record_id call (after, created)
unfolding escalate_problem
escalate_problem-once s rows after counters taken tenant_id record_id call created row o e =
    numbered_call-Settled s tenant_id record_id call counters taken
      (escalation_guards s rows tenant_id record_id >>= λ r.
        resolve_workflow_id s call.listing call.workflow_name)
      row rows after created o e
