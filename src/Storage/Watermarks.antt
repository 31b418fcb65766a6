-- ===== src/Storage/Watermarks.antt =====
-- src/aiops_apm/storage/watermarks.py: the store in memory.
use aiops_apm_anomaly_detect.Prelude.{ℕ, String, Option, List}
use aiops_apm_anomaly_detect.Prelude.Dict as Dict
use aiops_apm_anomaly_detect.Prelude.Dict.{text_pair_key}
use aiops_apm_anomaly_detect.Errors.{Result, ok, ◌>>◌}
use aiops_apm_anomaly_detect.Storage.DetectionState.{require_tenant}

abbrev pub Watermarks : Type 0
Watermarks = List ((String × String) × ℕ)

unfoldable pub get : Watermarks → String → String → Result (Option ℕ)
unfolding Dict.get
get rows tenant_id target_id = do
  require_tenant tenant_id
  ok (Dict.get rows (tenant_id, target_id))

unfoldable pub update : Watermarks → String → String → ℕ → Result Watermarks
unfolding Dict.put
update rows tenant_id target_id last_ts = do
  require_tenant tenant_id
  ok (Dict.put rows (tenant_id, target_id) last_ts)
