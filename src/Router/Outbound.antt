-- ===== src/Router/Outbound.antt =====
-- What the handlers of src/aiops_apm/router/problems.py make of the answer of a service: the HTTP
-- client is not modelled, and its outcome is an argument.
use aiops_apm_anomaly_detect.Prelude.{ℕ, String, Option, none, some, if◌then◌else◌}
use aiops_apm_anomaly_detect.Prelude.Text.{first_chars}
use aiops_apm_anomaly_detect.Errors.{ErrorCode, Error, Result, ok, err}
use aiops_apm_anomaly_detect.Models.Value.{Value, lookup, truthy, printed}

-- `json` is the parsed body, and `none` where the body is no JSON.
pub record Response : Type 0 where
  pub status_code : ℕ
  pub json : Option Value
  pub text : String

-- The outcome of `http.request`.
pub data Outcome : Type 0 where
  timed_out : Outcome
  failed : String → Outcome
  answered : Response → Outcome

abbrev pub upstream : String → Error
upstream text = Error.app_exception ErrorCode.upstream text

abbrev pub conflict : String → Error
conflict text = Error.app_exception ErrorCode.conflict text

abbrev pub not_found : String → Error
not_found text = Error.app_exception ErrorCode.not_found text

abbrev pub validation : String → Error
validation text = Error.app_exception ErrorCode.validation text

-- `data.get("detail") or data.get("reason") or ""` of a dictionary; else the start of the text.
abbrev detail_of : (Value → String) → Option Value → String → String
detail_of show (some (Value.obj d)) text =
    if truthy (lookup d "detail")
    then printed show (lookup d "detail")
    else printed show (lookup d "reason")
detail_of show _ text = first_chars 200 text

unfoldable pub resp_detail : (Value → String) → Response → String
unfolding lookup first_chars
resp_detail show r = detail_of show r.json r.text

-- `(resp.json() or {}).get(key)`: a body that is no dictionary, unless it is false, raises.
abbrev pub body_field : Option Value → String → String → Result (Option Value)
body_field none key invalid = err (upstream invalid)
body_field (some (Value.obj d)) key invalid = ok (lookup d key)
body_field (some v) key invalid = if truthy (some v) then err (upstream invalid) else ok none
