-- ===== src/Router/Problems/Manual.antt =====
-- src/aiops_apm/router/problems.py, resolve_problem and ignore_problem: a record that a person ends.
pub mod Verdicts
pub mod Hidden
use aiops_apm_anomaly_detect.Prelude.{ℕ, String, Bool, true, false, ◌∷◌, if◌then◌else◌, str_eq}
use aiops_apm_anomaly_detect.Errors.{Result, ok, err, ◌>>=◌}
use aiops_apm_anomaly_detect.Storage.Records.{Row, Rows, resolve, close}
use aiops_apm_anomaly_detect.Storage.Dynamic.Fpr.{FprTable, Arithmetic, write_fpr}
use aiops_apm_anomaly_detect.Router.Problems.{fetched}

-- Whether the verdict was recorded, and the table after it; the gauge is output.
unfoldable pub record_fpr : Arithmetic → FprTable → String → Row → Bool → Result (FprTable × Bool)
unfolding write_fpr
record_fpr a table tenant_id row false_positive =
    if str_eq row.group_key ""
    then ok (table, false)
    else (write_fpr a table tenant_id row.group_key false_positive >>= λ after. ok (after, true))

-- The stores that a handler writes to.
pub record Stores : Type 0 where
  pub rows : Rows
  pub table : FprTable

abbrev pub ended_with : Stores → Bool → Result Rows → Stores × Result Bool
ended_with s recorded (err failure) = (s, err failure)
ended_with s recorded (ok after) = (record s { rows = after }, ok recorded)

abbrev pub verdict_recorded :
    Stores → ℕ → String → String → Result (FprTable × Bool) → Stores × Result Bool
unfolding resolve
verdict_recorded s now tenant_id record_id (err failure) = (s, err failure)
verdict_recorded s now tenant_id record_id (ok (table, recorded)) =
    ended_with (record s { table = table }) recorded
      (resolve s.rows now tenant_id record_id "manual")

abbrev pub resolved_as :
    Arithmetic → Stores → ℕ → String → String → Bool → Result Row → Stores × Result Bool
unfolding record_fpr verdict_recorded
resolved_as a s now tenant_id record_id false_positive (err failure) = (s, err failure)
resolved_as a s now tenant_id record_id false_positive (ok row) =
    verdict_recorded s now tenant_id record_id (record_fpr a s.table tenant_id row false_positive)

-- The stores after the handler, and whether the verdict was recorded or what the handler raised.
unfoldable pub resolve_problem :
    Arithmetic → Stores → ℕ → String → String → Bool → Stores × Result Bool
unfolding fetched resolved_as
resolve_problem a s now tenant_id record_id false_positive =
    resolved_as a s now tenant_id record_id false_positive (fetched s.rows tenant_id record_id)

abbrev pub closed_with : Rows → Result Rows → Rows × Result (Unit {0})
closed_with rows (err failure) = (rows, err failure)
closed_with rows (ok after) = (after, ok tt)

abbrev pub ignored_as : Rows → ℕ → String → String → Result Row → Rows × Result (Unit {0})
unfolding close
ignored_as rows now tenant_id record_id (err failure) = (rows, err failure)
ignored_as rows now tenant_id record_id (ok row) =
    closed_with rows (close rows now tenant_id record_id "ignored")

-- The rows after the handler, and its return or what it raised.
unfoldable pub ignore_problem : Rows → ℕ → String → String → Rows × Result (Unit {0})
unfolding fetched ignored_as
ignore_problem rows now tenant_id record_id =
    ignored_as rows now tenant_id record_id (fetched rows tenant_id record_id)
