-- ===== src/Pipeline/Emit/Effects.antt =====
-- Lemmas on the stores after `emit` of src/aiops_apm/pipeline/emit.py, and on the key of its
-- record.
use mathlib.Core.List.Perm
use mathlib.Core.List.{Perm, perm_middle}
use aiops_apm_anomaly_detect.Prelude.{
  ◌≡◌, refl, sym, ap, ◌∙◌, String, Bool, true, false, some, List, [], ◌∷◌, map, arith, or_else,
  str_eq,
}
use aiops_apm_anomaly_detect.Prelude.Dict as Dict
use aiops_apm_anomaly_detect.Prelude.Dict.{string_key, get-put}
use aiops_apm_anomaly_detect.Prelude.Int.{pos}
use aiops_apm_anomaly_detect.Errors.{ok}
use aiops_apm_anomaly_detect.Models.Float.{finite}
use aiops_apm_anomaly_detect.Models.Value.{Value}
use aiops_apm_anomaly_detect.Models.Anomaly.{Anomaly, metrics, logs}
use aiops_apm_anomaly_detect.Models.Record.{Verification, record_group_key, anomalies_of, text_or}
use aiops_apm_anomaly_detect.Models.Fingerprint.{Hashing, group_key}
use aiops_apm_anomaly_detect.Models.Fingerprint.Order.{identity, group_key-perm}
use aiops_apm_anomaly_detect.Pipeline.Verify.{VerifyContext, count_rounds, judged, l3_verify}
use aiops_apm_anomaly_detect.Pipeline.Emit.{Env, RoundContext, Findings, new_record, verify_context}
use aiops_apm_anomaly_detect.Storage.DetectionState.{StateRows}

-- The metric anomalies and then the log anomalies are the group in another order.
anomalies_of-perm : (group : List Anomaly) → Perm group (anomalies_of (metrics group) (logs group))
unfolding metrics logs
anomalies_of-perm [] = Perm.rfl
anomalies_of-perm (Anomaly.metric a ∷ r) = Perm.cons (Anomaly.metric a) (anomalies_of-perm r)
anomalies_of-perm (Anomaly.log a ∷ r) =
    Perm.trans (Perm.cons (Anomaly.log a) (anomalies_of-perm r))
      (Perm.symm (perm_middle (map Anomaly.metric (metrics r)) (map Anomaly.log (logs r))))

text_or-some : (s d : String) → str_eq s "" ≡ false → text_or (some s) d ≡ s
text_or-some s d e = rw e refl

record_key :
    (env : Env) (ctx : RoundContext) (service rep : String) (group : List Anomaly)
    (found : Findings) (evidence : List Value) (record_id : String)
    → str_eq rep "" ≡ false
    → record_group_key env.hashing
        (new_record env ctx service group found (some rep) evidence record_id)
      ≡ group_key env.hashing ctx.tenant_id ctx.domain rep group
unfolding record_group_key new_record
record_key env ctx service rep group found evidence record_id named =
    ap
      (λ s.
        group_key env.hashing ctx.tenant_id ctx.domain s
          (anomalies_of (metrics group) (logs group)))
      (text_or-some rep service named)
    ∙ sym (
        group_key-perm env.hashing ctx.tenant_id ctx.domain rep group
          (anomalies_of (metrics group) (logs group)) (Perm.map identity (anomalies_of-perm group)))

judged-rate :
    (h : Hashing) (ctx : VerifyContext) (rep : String) (related : Bool) (group : List Anomaly)
    → (judged h ctx rep related group).passed ≡ true
    → (judged h ctx rep related group).false_positive_rate
      ≡ (or_else
          (Dict.get ctx.fpr (group_key h ctx.tenant_id ctx.domain rep group))
          (record { fpr = finite (pos 0); total = pos 0 })).fpr
unfolding judged
judged-rate h ctx rep related [] p = absurd (ground arith)
judged-rate h ctx rep related (a ∷ r) p = refl

-- When every anomaly of a group has persisted, the rate of false positives that the verification
-- reads is the one that the table has under the key of the record that `emit` makes for the group.
-- The representative service must have a name.
pub l3_verify-record_key :
    (env : Env) (ctx : RoundContext) (service rep : String) (group : List Anomaly)
    (found : Findings) (evidence : List Value) (record_id : String) (related : Bool)
    (rows rows' : StateRows) (seen seen' : List String)
    → str_eq rep "" ≡ false
    → count_rounds env.hashing (verify_context ctx) group rows seen ≡ ok (group, rows', seen')
    → (v : Verification) × (l3_verify env.hashing (verify_context ctx) rep group related rows seen
        ≡ ok (v, rows', seen'))
      × (v.passed ≡ true
          → v.false_positive_rate
            ≡ (or_else
                (Dict.get ctx.fpr (
                  record_group_key env.hashing
                    (new_record env ctx service group found (some rep) evidence record_id)))
                (record { fpr = finite (pos 0); total = pos 0 })).fpr)
unfolding l3_verify
l3_verify-record_key env ctx service rep group found evidence record_id related rows rows' seen
      seen' named all =
    (
      judged env.hashing (verify_context ctx) rep related group,
      rw all refl,
      λ passed.
          judged-rate env.hashing (verify_context ctx) rep related group passed
          ∙ ap
              (λ (k : String).
                (or_else (Dict.get ctx.fpr k) (record { fpr = finite (pos 0); total = pos 0 })).fpr)
              (sym (record_key env ctx service rep group found evidence record_id named)),
    )
