-- ===== src/Models/Fingerprint.antt =====
-- src/aiops_apm/models/fingerprint.py. The SHA-256 of the standard library and the printed form of
-- a list of items are parameters.
pub mod Order
use aiops_apm_anomaly_detect.Prelude.{String, Bool, List, [], ◌∷◌, map, str_eq}
use aiops_apm_anomaly_detect.Prelude.Order.{pair_ordered}
use aiops_apm_anomaly_detect.Prelude.Text.{string_ordered, concat, join, first_chars}
use aiops_apm_anomaly_detect.Prelude.Sort.{sorted}
use aiops_apm_anomaly_detect.Models.Anomaly.{Anomaly}

-- `hashlib.sha256(raw.encode()).hexdigest()`, and `f"{items}"` for a list of pairs of texts.
pub record Hashing : Type 0 where
  pub hexdigest : String → String
  pub show_items : List (String × String) → String

module _ (h : Hashing) where
  unfoldable pub anomaly_key : Anomaly → String
  anomaly_key (Anomaly.metric a) = first_chars 16 (
      h.hexdigest (
        concat (
          "metric|"
          ∷ a.tenant_id
          ∷ "|"
          ∷ a.service
          ∷ "|"
          ∷ a.metric
          ∷ "|"
          ∷ h.show_items (sorted a.labels)
          ∷ [])))
  anomaly_key (Anomaly.log a) =
      first_chars 16
        (h.hexdigest (concat ("log|" ∷ a.tenant_id ∷ "|" ∷ a.service ∷ "|" ∷ a.signature ∷ [])))

  unfoldable pub group_key : String → String → String → List Anomaly → String
  group_key tenant_id domain service anomalies =
      let keys = sorted (map anomaly_key anomalies) in
      let raw = concat (tenant_id ∷ "|" ∷ domain ∷ "|" ∷ service ∷ "|" ∷ join "|" keys ∷ []) in
      concat
        (tenant_id ∷ ":" ∷ domain ∷ ":" ∷ service ∷ ":" ∷ first_chars 12 (h.hexdigest raw) ∷ [])

unfoldable pub is_same_group : String → String → Bool
is_same_group key_a key_b = str_eq key_a key_b
