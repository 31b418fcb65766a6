-- ===== src/Storage/Records/Writes.antt =====
-- Lemmas on the writes of src/aiops_apm/storage/records.py.
use aiops_apm_anomaly_detect.Prelude.{
  ℕ, ◌≡◌, refl, ap, ◌∙◌, inl, inr, String, true, false, some, arith, Option-cases, str_eq,
}
use aiops_apm_anomaly_detect.Prelude.Dict as Dict
use aiops_apm_anomaly_detect.Prelude.Dict.{string_key}
use aiops_apm_anomaly_detect.Errors.{ok}
use aiops_apm_anomaly_detect.Models.Value.{Value}
use aiops_apm_anomaly_detect.Storage.Records.{
  Row, Rows, append_evidence, mark_in_progress, agent_run, with_evidence, get,
}

abbrev pub noted_row : Row → Value → Row
noted_row row entry = record row { base = with_evidence row.base entry }

abbrev pub claimed_row : Row → Value → Row
claimed_row row entry = record row {
  base = record (with_evidence row.base entry) { state = "in_progress" };
}

module _ (rows : Rows) (tenant_id record_id : String) where
  -- The row of a record that the tenant owns.
  pub record Owned (row : Row) : Type 0 where
    pub named : str_eq tenant_id "" ≡ false
    pub found : Dict.get rows record_id ≡ some row
    pub mine : str_eq row.base.tenant_id tenant_id ≡ true

  pub get-Owned : (row : Row) → get rows tenant_id record_id ≡ ok (some row) → Owned row
  unfolding get
  get-Owned row e = elim (Option-cases (Dict.get rows record_id)) [
    | inl missing ↦ absurd (ground arith)
    | inr (r, there) ↦
        let same : r ≡ row = ground arith in
        record {
          named = ground arith;
          found = there ∙ ap some same;
          mine = rw (← same) (ground arith);
        }
  ]

  pub Owned-get : (row : Row) → Owned row → get rows tenant_id record_id ≡ ok (some row)
  unfolding get
  Owned-get row o = rw (o.named, o.found, o.mine) refl

  pub append_evidence-done :
      (entry : Value) (after : Rows)
      → append_evidence rows tenant_id record_id entry ≡ ok (true, after)
      → (row : Row) × Owned row × (after ≡ Dict.put rows record_id (noted_row row entry))
  unfolding append_evidence
  append_evidence-done entry after e = elim (Option-cases (Dict.get rows record_id)) [
    | inl missing ↦ absurd (ground arith)
    | inr (row, there) ↦
        (row, record { named = ground arith; found = there; mine = ground arith }, ground arith)
  ]

  pub Owned-append_evidence :
      (entry : Value) (row : Row)
      → Owned row
      → append_evidence rows tenant_id record_id entry
        ≡ ok (true, Dict.put rows record_id (noted_row row entry))
  unfolding append_evidence
  Owned-append_evidence entry row o = rw (o.named, o.found, o.mine) refl

  pub mark_in_progress-done :
      (now : ℕ) (run_id workflow_id : String) (after : Rows)
      → mark_in_progress rows now tenant_id record_id run_id workflow_id ≡ ok (true, after)
      → (row : Row) × Owned row
        × (str_eq row.base.state "pending" ≡ true)
        × (after ≡ Dict.put rows record_id (claimed_row row (agent_run now run_id workflow_id)))
  unfolding mark_in_progress
  mark_in_progress-done now run_id workflow_id after e =
      elim (Option-cases (Dict.get rows record_id)) [
        | inl missing ↦ absurd (ground arith)
        | inr (row, there) ↦ (
          row,
          record { named = ground arith; found = there; mine = ground arith },
          ground arith,
          ground arith,
        )
      ]
