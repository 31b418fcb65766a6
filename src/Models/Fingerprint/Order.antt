-- ===== src/Models/Fingerprint/Order.antt =====
-- Lemmas on the keys of src/aiops_apm/models/fingerprint.py and the order of the anomalies.
use mathlib.Core.List.{Perm}
use mathlib.Core.List.Perm
use mathlib.Core.Path.{ap₂}
use aiops_apm_anomaly_detect.Prelude.{String, ◌≡◌, refl, sym, ap, ◌∙◌, List, [], ◌∷◌, map}
use aiops_apm_anomaly_detect.Prelude.Order.{pair_ordered}
use aiops_apm_anomaly_detect.Prelude.Text.{string_ordered, string_set, concat, join, first_chars}
use aiops_apm_anomaly_detect.Prelude.Sort.{sorted, sorted-perm}
use aiops_apm_anomaly_detect.Models.Anomaly.{Anomaly}
use aiops_apm_anomaly_detect.Models.Fingerprint.{Hashing, anomaly_key, group_key}

-- What makes two anomalies the same problem: no value, severity, count or time.
pub data Identity : Type 0 where
  of_metric : (tenant_id service metric : String) → List (String × String) → Identity
  of_log : (tenant_id service signature : String) → Identity

-- Labels are a dictionary, so their order is forgotten.
unfoldable pub identity : Anomaly → Identity
identity (Anomaly.metric a) = of_metric a.tenant_id a.service a.metric (sorted a.labels)
identity (Anomaly.log a) = of_log a.tenant_id a.service a.signature

module _ (h : Hashing) where
  key_of : Identity → String
  unfolding anomaly_key
  key_of (of_metric t s m labels) =
      first_chars 16
        (h.hexdigest (concat ("metric|" ∷ t ∷ "|" ∷ s ∷ "|" ∷ m ∷ "|" ∷ h.show_items labels ∷ [])))
  key_of (of_log t s sig) =
      first_chars 16 (h.hexdigest (concat ("log|" ∷ t ∷ "|" ∷ s ∷ "|" ∷ sig ∷ [])))

  anomaly_key-identity : (a : Anomaly) → anomaly_key h a ≡ key_of (identity a)
  unfolding anomaly_key key_of identity
  anomaly_key-identity (Anomaly.metric a) = refl
  anomaly_key-identity (Anomaly.log a) = refl

  map-anomaly_key : (xs : List Anomaly) → map (anomaly_key h) xs ≡ map key_of (map identity xs)
  map-anomaly_key [] = refl
  map-anomaly_key (a ∷ xs) = ap₂ ◌∷◌ (anomaly_key-identity a) (map-anomaly_key xs)

  -- Two anomalies with one identity have one key.
  pub anomaly_key_of_identity :
      (a b : Anomaly) → identity a ≡ identity b → anomaly_key h a ≡ anomaly_key h b
  anomaly_key_of_identity a b e = cc (anomaly_key-identity a, anomaly_key-identity b, e)

  -- Groups that hold the same identities, each as often, in whatever order and with whatever
  -- values, severities, counts and times, have the same key in a tenant, domain and service.
  pub group_key-perm :
      (tenant_id domain service : String) (xs ys : List Anomaly)
      → Perm (map identity xs) (map identity ys)
      → group_key h tenant_id domain service xs ≡ group_key h tenant_id domain service ys
  unfolding group_key
  group_key-perm tenant_id domain service xs ys p =
      ap
        (λ keys. concat (
          tenant_id
          ∷ ":"
          ∷ domain
          ∷ ":"
          ∷ service
          ∷ ":"
          ∷ first_chars 12 (
              h.hexdigest
                (concat (tenant_id ∷ "|" ∷ domain ∷ "|" ∷ service ∷ "|" ∷ join "|" keys ∷ [])))
          ∷ []))
        (ap sorted (map-anomaly_key xs)
          ∙ sorted-perm string_set (Perm.map key_of p)
          ∙ ap sorted (sym (map-anomaly_key ys)))
