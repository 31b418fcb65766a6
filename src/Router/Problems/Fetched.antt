-- ===== src/Router/Problems/Fetched.antt =====
-- Lemmas on the record that a handler of src/aiops_apm/router/problems.py works on, and its owner.
use aiops_apm_anomaly_detect.Prelude.{
  ◌≡◌, refl, ap, ◌∙◌, inl, inr, String, some, arith, Option-cases,
}
use aiops_apm_anomaly_detect.Errors.{ok, >>=-eq-ok}
use aiops_apm_anomaly_detect.Storage.Records as Records
use aiops_apm_anomaly_detect.Storage.Records.{Row, Rows}
use aiops_apm_anomaly_detect.Storage.Records.Writes.{Owned, get-Owned, Owned-get}
use aiops_apm_anomaly_detect.Router.Problems.{fetched, present}

module _ (rows : Rows) (tenant_id record_id : String) (row : Row) where
  pub fetched-Owned : fetched rows tenant_id record_id ≡ ok row → Owned rows tenant_id record_id row
  unfolding fetched
  fetched-Owned e =
      let (value, got, shown) =
        >>=-eq-ok (Records.get rows tenant_id record_id) (present record_id) e in
      elim (Option-cases value) [
        | inl missing ↦ absurd (ground arith)
        | inr (r, there) ↦
            let same : r ≡ row = ground arith in
            get-Owned rows tenant_id record_id row (got ∙ (rw there (ap (λ u. ok (some u)) same)))
      ]

  pub Owned-fetched : Owned rows tenant_id record_id row → fetched rows tenant_id record_id ≡ ok row
  unfolding fetched
  Owned-fetched o = rw (Owned-get rows tenant_id record_id row o) refl
