-- ===== src/Router/Evidence.antt =====
-- The queries of src/aiops_apm/router/problems.py on the evidence of a record.
use aiops_apm_anomaly_detect.Prelude.{
  String, Bool, not, ◌&&◌, Option, none, some, List, [], ◌∷◌, keep, str_eq, if◌then◌else◌,
}
use aiops_apm_anomaly_detect.Prelude.Strip.{strip}
use aiops_apm_anomaly_detect.Models.Value.{
  Value, Items, lookup, entry_get, is_text, truthy, text_value,
}

abbrev pub has_type : String → Value → Bool
has_type name e = is_text (entry_get e "type") name

-- The first entry that passes.
abbrev pub first_entry : (Value → Bool) → List Value → Option Value
first_entry test [] = none
first_entry test (e ∷ es) = if test e then some e else first_entry test es

-- The last entry that passes: `latest = e` in a loop.
abbrev pub latest_entry : (Value → Bool) → List Value → Option Value → Option Value
latest_entry test [] latest = latest
latest_entry test (e ∷ es) latest = latest_entry test es (if test e then some e else latest)

-- A recorded decision to escalate that has a ticket.
abbrev pub is_escalation : Value → Bool
is_escalation e =
    has_type "diagnose_decision" e
    && (is_text (entry_get e "decision") "escalate" && truthy (entry_get e "ticket_id"))

unfoldable pub created_ticket : List Value → Option Value
unfolding lookup
created_ticket evidence = first_entry is_escalation evidence

unfoldable pub run_decisions : List Value → List Value
unfolding lookup
run_decisions evidence = keep (has_type "run_decision") evidence

unfoldable pub diagnose_decisions : List Value → List Value
unfolding lookup
diagnose_decisions evidence = keep (has_type "diagnose_decision") evidence

unfoldable pub agent_run_entries : List Value → List Value
unfolding lookup
agent_run_entries evidence =
    keep (λ e. has_type "agent_run" e && truthy (entry_get e "run_id")) evidence

abbrev pub last_of : List Value → Option Value
last_of [] = none
last_of (e ∷ []) = some e
last_of (e ∷ f ∷ es) = last_of (f ∷ es)

unfoldable pub latest_agent_run : List Value → Option Value
unfolding agent_run_entries
latest_agent_run evidence = last_of (agent_run_entries evidence)

unfoldable pub latest_diagnose_session : List Value → Option Value
unfolding lookup
latest_diagnose_session evidence =
    latest_entry (λ e. has_type "diagnose_session" e && truthy (entry_get e "session_id")) evidence
      none

abbrev is_feedback : Value → Bool
unfolding strip
is_feedback e =
    has_type "diagnose_decision" e
    && (is_text (entry_get e "decision") "reject"
        && not (str_eq (strip (text_value (entry_get e "feedback"))) ""))

abbrev feedback_of : Option Value → String
unfolding strip
feedback_of none = ""
feedback_of (some e) = strip (text_value (entry_get e "feedback"))

unfoldable pub latest_reject_feedback : List Value → String
unfolding lookup strip
latest_reject_feedback evidence = feedback_of (latest_entry is_feedback evidence none)

-- `tids[0]` of a list that is not empty.
abbrev first_item : Option Value → Option Value
first_item (some (Value.arr (Items.cons v vs))) = some v
first_item _ = none

-- The first entry `log_trace_ids` whose list is not empty gives the chain.
unfoldable pub first_log_chain_id : (Value → String) → List Value → Option String
unfolding lookup
first_log_chain_id show [] = none
first_log_chain_id show (e ∷ es) =
    elim (if has_type "log_trace_ids" e then first_item (entry_get e "trace_ids") else none) [
      | none ↦ first_log_chain_id show es
      | some v ↦ some (elim v [ Value.str s ↦ s | other ↦ show other ])
    ]
