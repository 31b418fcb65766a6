-- ===== src/Router/Problems/Runs/Decisions.antt =====
-- Lemmas on record_run_decision of src/aiops_apm/router/problems.py called twice.
use aiops_apm_anomaly_detect.Prelude.{
  ℕ, ◌≡◌, refl, sym, subst, ◌∙◌, inl, inr, String, Bool, true, false, Option, none, some, List, [],
  ◌∷◌, ◌++◌, arith, Bool-cases, Option-cases, keep, keep-append, str_eq, str_eq_refl,
}
use aiops_apm_anomaly_detect.Prelude.Dict as Dict
use aiops_apm_anomaly_detect.Prelude.Dict.{string_key, get-put}
use aiops_apm_anomaly_detect.Prelude.Strip.{strip}
use aiops_apm_anomaly_detect.Errors.{Result, ok, err}
use aiops_apm_anomaly_detect.Models.Value.{Value, fields, lookup, entry_get, truthy}
use aiops_apm_anomaly_detect.Storage.Records.{Row, Rows}
use aiops_apm_anomaly_detect.Storage.Records.Writes.{Owned, noted_row, Owned-append_evidence}
use aiops_apm_anomaly_detect.Router.Evidence.{run_decisions, first_entry, has_type}
use aiops_apm_anomaly_detect.Router.Problems.{fetched}
use aiops_apm_anomaly_detect.Router.Problems.Fetched.{fetched-Owned, Owned-fetched}
use aiops_apm_anomaly_detect.Router.Problems.Runs.{
  RunDecisionBody, RunDecisionReply, node_of, decides, decision_entry, noted_decision, decided_on,
  record_run_decision,
}

first_entry-append :
    (test : Value → Bool) (es : List Value) (e : Value)
    → first_entry test es ≡ none
    → test e ≡ true
    → first_entry test (es ++ e ∷ []) ≡ some e
first_entry-append test [] e n h = rw h refl
first_entry-append test (d ∷ es) e n h = elim (Bool-cases (test d)) [
  | inl t ↦ absurd (ground arith)
  | inr t ↦ rw t (first_entry-append test es e (rw t at n) h)
]

module _ (tenant_id record_id : String) (body : RunDecisionBody) where
  abbrev found_in : Row → Option Value
  found_in row =
      first_entry (decides (strip body.run_id) (node_of body.node_id))
        (run_decisions row.base.evidence)

  abbrev made : ℕ → Value
  made now = decision_entry now (strip body.run_id) (node_of body.node_id) body

  made_type : (now : ℕ) → keep (has_type "run_decision") (made now ∷ []) ≡ made now ∷ []
  unfolding decision_entry fields lookup
  made_type now = refl

  made-decides : (now : ℕ) → decides (strip body.run_id) (node_of body.node_id) (made now) ≡ true
  unfolding decides decision_entry fields lookup
  made-decides now = rw (str_eq_refl (strip body.run_id), str_eq_refl (node_of body.node_id)) refl

  found_in-noted :
      (now : ℕ) (row : Row)
      → found_in row ≡ none
      → found_in (noted_row row (made now)) ≡ some (made now)
  unfolding run_decisions
  found_in-noted now row missing =
      let entry = made now in
      let kept : keep (has_type "run_decision") (entry ∷ []) ≡ entry ∷ [] = made_type now in
      rw (keep-append (has_type "run_decision") row.base.evidence (entry ∷ []), kept)
        (first_entry-append (decides (strip body.run_id) (node_of body.node_id))
          (run_decisions row.base.evidence) entry missing (made-decides now))

  approved_made : (now : ℕ) → truthy (entry_get (made now) "approved") ≡ body.approved
  unfolding decision_entry fields lookup
  approved_made now = refl

  accepted_lem :
      (rows : Rows) (now : ℕ) (row : Row)
      → Owned rows tenant_id record_id row
      → str_eq (strip body.run_id) "" ≡ false
      → record_run_decision rows now tenant_id record_id body
        ≡ noted_decision rows now tenant_id record_id
            (strip body.run_id)
            (node_of body.node_id)
            body
            (found_in row)
  unfolding record_run_decision decided_on
  accepted_lem rows now row o named = rw (Owned-fetched rows tenant_id record_id row o, named) refl

abbrev known : String → String → Bool → RunDecisionReply
known run_id node_id approved = record {
  run_id = run_id;
  node_id = node_id;
  approved = approved;
  recorded = false;
}

-- A record that knows the decision: the store stays, and the reply repeats the verdict.
known_lem :
    (tenant_id record_id run_id node_id : String) (body : RunDecisionBody) (rows : Rows) (now : ℕ)
    (row : Row) (e : Value)
    → Owned rows tenant_id record_id row
    → str_eq run_id "" ≡ false
    → strip body.run_id ≡ run_id
    → node_of body.node_id ≡ node_id
    → first_entry (decides run_id node_id) (run_decisions row.base.evidence) ≡ some e
    → record_run_decision rows now tenant_id record_id body
      ≡ (rows, ok (known run_id node_id (truthy (entry_get e "approved"))))
unfolding noted_decision
known_lem tenant_id record_id run_id node_id body rows now row e o named run node there =
    accepted_lem tenant_id record_id body rows now row o (rw run named)
    ∙ (rw (run, node, there) refl)

-- A first run of the handler, and a second one after it.
abbrev Repeats : String → String → RunDecisionBody → ℕ → Rows × RunDecisionReply → Type 0
Repeats tenant_id record_id again later out =
    record_run_decision out.0 later tenant_id record_id again
    ≡ (out.0, ok (record out.1 { recorded = false }))

taken_lem :
    (tenant_id record_id : String) (body again : RunDecisionBody) (rows : Rows) (now later : ℕ)
    (row : Row)
    → Owned rows tenant_id record_id row
    → str_eq (strip body.run_id) "" ≡ false
    → strip again.run_id ≡ strip body.run_id
    → node_of again.node_id ≡ node_of body.node_id
    → (out : Rows × RunDecisionReply) × (record_run_decision rows now tenant_id record_id body
        ≡ (out.0, ok out.1))
      × Repeats tenant_id record_id again later out
unfolding noted_decision
taken_lem tenant_id record_id body again rows now later row o named run node =
    let run_id = strip body.run_id in
    let node_id = node_of body.node_id in
    elim (Option-cases (found_in tenant_id record_id body row)) [
      | inr (first, there) ↦ (
        (rows, known run_id node_id (truthy (entry_get first "approved"))),
        known_lem tenant_id record_id run_id node_id body rows now row first o named refl refl
            there,
        known_lem tenant_id record_id run_id node_id again rows later row first o named run node
            there,
      )
      | inl missing ↦
          let entry = made tenant_id record_id body now in
          let new = noted_row row entry in
          let put_row : Rows = Dict.put rows record_id new in
          let owned_new : Owned put_row tenant_id record_id new = record {
            named = o.named;
            found = get-put rows record_id record_id new ∙ (rw (str_eq_refl record_id) refl);
            mine = o.mine;
          } in
          (
            (put_row, record (known run_id node_id body.approved) { recorded = true }),
            accepted_lem tenant_id record_id body rows now row o named
                ∙ (rw missing
                    (rw (Owned-append_evidence rows tenant_id record_id entry row o) refl)),
            known_lem tenant_id record_id run_id node_id again put_row later new entry owned_new
                named run node (found_in-noted tenant_id record_id body now row missing),
          )
    ]

decided_on-ok :
    (rows : Rows) (now : ℕ) (tenant_id record_id : String) (body : RunDecisionBody)
    (found : Result Row) (after : Rows) (reply : RunDecisionReply)
    → decided_on rows now tenant_id record_id body found ≡ (after, ok reply)
    → (row : Row) × (found ≡ ok row) × (str_eq (strip body.run_id) "" ≡ false)
unfolding decided_on
decided_on-ok rows now tenant_id record_id body (err failure) after reply e = absurd (ground arith)
decided_on-ok rows now tenant_id record_id body (ok row) after reply e =
    elim (Bool-cases (str_eq (strip body.run_id) "")) [
      | inl blank ↦ absurd (ground arith)
      | inr named ↦ (row, refl, named)
    ]

-- When a decision on a run was taken, then a further decision of the tenant on the same node of that
-- run, whatever its verdict, its author and its comment, changes nothing, and its reply repeats the
-- verdict of the first.
pub record_run_decision-once :
    (tenant_id record_id : String) (body again : RunDecisionBody) (rows : Rows) (now later : ℕ)
    (after : Rows) (reply : RunDecisionReply)
    → record_run_decision rows now tenant_id record_id body ≡ (after, ok reply)
    → strip again.run_id ≡ strip body.run_id
    → node_of again.node_id ≡ node_of body.node_id
    → record_run_decision after later tenant_id record_id again
      ≡ (after, ok (record reply { recorded = false }))
unfolding record_run_decision
record_run_decision-once tenant_id record_id body again rows now later after reply e run node =
    let (row, got, named) =
      decided_on-ok rows now tenant_id record_id body (fetched rows tenant_id record_id) after reply
        e in
    let o = fetched-Owned rows tenant_id record_id row got in
    let (out, first, second) =
      taken_lem tenant_id record_id body again rows now later row o named run node in
    let same : (out.0, ok out.1) ≡ (after, ok reply) = sym first ∙ e in
    let same_out : out ≡ (after, reply) = cc in
    subst (Repeats tenant_id record_id again later) same_out second
