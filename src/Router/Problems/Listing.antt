-- ===== src/Router/Problems/Listing.antt =====
-- src/aiops_apm/router/problems.py, _strip_decision_snapshots: the snapshots in the list of
-- problems.
use mathlib.Core.Option as Option
use aiops_apm_anomaly_detect.Prelude.{
  ◌≡◌, refl, sym, ap, ◌∙◌, inl, inr, ◌&&◌, String, false, none, List, [], ◌∷◌, map, arith,
  Bool-cases, is_nonempty, if◌then◌else◌, str_eq, str_eq_iff,
}
use aiops_apm_anomaly_detect.Models.Value.{Value, Fields, end, field, lookup, entry_get}
use aiops_apm_anomaly_detect.Storage.Records.{Row}
use aiops_apm_anomaly_detect.Router.Evidence.{
  has_type, is_escalation, created_ticket, diagnose_decisions,
}

-- `{k: v for k, v in d.items() if k != key}`
unfoldable pub without : String → Fields → Fields
without key end = end
without key (field k v d) = if str_eq k key then without key d else field k v (without key d)

abbrev pub without_snapshot : Value → Value
unfolding without
without_snapshot (Value.obj d) = Value.obj (without "snapshot" d)
without_snapshot v = v

abbrev pub slim : Value → Value
unfolding without_snapshot
slim e = if has_type "diagnose_decision" e then without_snapshot e else e

unfoldable pub strip_decision_snapshots : Row → Row
unfolding diagnose_decisions slim
strip_decision_snapshots row =
    if is_nonempty (diagnose_decisions row.base.evidence)
    then record row { base = record row.base { evidence = map slim row.base.evidence } }
    else row

lookup-without :
    (d : Fields) (gone key : String)
    → lookup (without gone d) key ≡ (if str_eq gone key then none else lookup d key)
unfolding without lookup
lookup-without end gone key = ground arith
lookup-without (field k v d) gone key =
    ground
      (arith, lookup-without d gone key, str_eq_iff k gone, str_eq_iff k key, str_eq_iff gone key)

entry_get-slim :
    (e : Value) (key : String)
    → entry_get (slim e) key
      ≡ (if has_type "diagnose_decision" e && str_eq "snapshot" key then none else entry_get e key)
unfolding slim without_snapshot
entry_get-slim (Value.obj d) key = elim (Bool-cases (has_type "diagnose_decision" (Value.obj d))) [
  | inl t ↦ rw t (lookup-without d "snapshot" key)
  | inr t ↦ rw t refl
]
entry_get-slim e key = refl

entry_get-kept :
    (e : Value) (key : String)
    → str_eq "snapshot" key ≡ false
    → entry_get (slim e) key ≡ entry_get e key
entry_get-kept e key h = ground (arith, entry_get-slim e key)

is_escalation-slim : (e : Value) → is_escalation (slim e) ≡ is_escalation e
is_escalation-slim e =
    rw
      (
        entry_get-kept e "type" refl,
        entry_get-kept e "decision" refl,
        entry_get-kept e "ticket_id" refl,
      )
      refl

created_ticket-slim :
    (es : List Value) → created_ticket (map slim es) ≡ Option.map slim (created_ticket es)
unfolding created_ticket
created_ticket-slim [] = refl
created_ticket-slim (e ∷ es) = elim (Bool-cases (is_escalation e)) [
  | inl t ↦ rw (is_escalation-slim e, t) refl
  | inr t ↦ rw (is_escalation-slim e, t) (created_ticket-slim es)
]

map-slim : (es : List Value) → is_nonempty (diagnose_decisions es) ≡ false → map slim es ≡ es
unfolding diagnose_decisions slim
map-slim [] h = refl
map-slim (e ∷ es) h = elim (Bool-cases (has_type "diagnose_decision" e)) [
  | inl t ↦ absurd (ground arith)
  | inr t ↦ rw t (ap (λ rest. e ∷ rest) (map-slim es (rw t at h)))
]

slimmed :
    (row : Row)
    → strip_decision_snapshots row
      ≡ record row { base = record row.base { evidence = map slim row.base.evidence } }
unfolding strip_decision_snapshots
slimmed row = elim (Bool-cases (is_nonempty (diagnose_decisions row.base.evidence))) [
  | inl t ↦ rw t refl
  | inr t ↦ rw t (
      ap (λ es. record row { base = record row.base { evidence = es } })
        (sym (map-slim row.base.evidence t)))
]

-- The row that the list of problems shows has the same record but for its evidence: an entry has
-- the values it had, but a decision on a diagnosis has no snapshot; and the ticket that the row
-- shows for the record is the one that it holds, without its snapshot.
pub strip_decision_snapshots-evidence :
    (row : Row)
    → (strip_decision_snapshots row
        ≡ record row { base = record row.base { evidence = map slim row.base.evidence } })
      × ((e : Value) (key : String)
          → entry_get (slim e) key ≡ (
              if has_type "diagnose_decision" e && str_eq "snapshot" key
              then none
              else entry_get e key))
      × (created_ticket (strip_decision_snapshots row).base.evidence
          ≡ Option.map slim (created_ticket row.base.evidence))
strip_decision_snapshots-evidence row = (
  slimmed row,
  entry_get-slim,
  ap (λ r. created_ticket r.base.evidence) (slimmed row) ∙ created_ticket-slim row.base.evidence,
)
