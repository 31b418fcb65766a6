-- ===== src/Models/Value.antt =====
-- The values of Python's untyped dictionaries: parameters of plugins, evidence, summaries.
-- Numbers of either kind are `num`; `time` is a `datetime`.
use aiops_apm_anomaly_detect.Prelude.{
  ℕ, zero, suc, String, Bool, true, false, not, Option, none, some, List, [], ◌∷◌, str_eq,
  if◌then◌else◌,
}
use aiops_apm_anomaly_detect.Prelude.Int.{pos, negsuc}
use aiops_apm_anomaly_detect.Models.Float.{Float, finite, infinity, minus_infinity, nan}

mutual
  pub data Fields : Type 0 where
    end : Fields
    field : String → Value → Fields → Fields

  pub data Items : Type 0 where
    nil : Items
    cons : Value → Items → Items

  pub data Value : Type 0 where
    null : Value
    obj : Fields → Value
    arr : Items → Value
    time : ℕ → Value
    str : String → Value
    num : Float → Value
    bool : Bool → Value

-- A dictionary with text keys.
abbrev pub Params : Type 0
Params = List (String × Value)

unfoldable pub items : List Value → Items
items [] = nil
items (v ∷ vs) = cons v (items vs)

unfoldable pub fields : Params → Fields
fields [] = end
fields ((k, v) ∷ d) = field k v (fields d)

-- A list of texts as a value.
unfoldable pub texts : List String → Value
texts ss = arr (go ss)
  where
    go : List String → Items
    go [] = nil
    go (s ∷ r) = cons (str s) (go r)

-- `d.get(key)`
unfoldable pub lookup : Fields → String → Option Value
lookup end key = none
lookup (field k v d) key = if str_eq k key then some v else lookup d key

-- `e.get(key)` for an entry that is a dictionary; any other entry has no such value.
abbrev pub entry_get : Value → String → Option Value
entry_get null key = none
entry_get (obj d) key = lookup d key
entry_get (arr vs) key = none
entry_get (time t) key = none
entry_get (str s) key = none
entry_get (num x) key = none
entry_get (bool b) key = none

-- `v == text`
abbrev pub is_text : Option Value → String → Bool
is_text none t = false
is_text (some null) t = false
is_text (some (obj d)) t = false
is_text (some (arr vs)) t = false
is_text (some (time n)) t = false
is_text (some (str s)) t = str_eq s t
is_text (some (num x)) t = false
is_text (some (bool b)) t = false

abbrev pub is_zero : Float → Bool
is_zero (finite (pos zero)) = true
is_zero (finite (pos (suc n))) = false
is_zero (finite (negsuc n)) = false
is_zero infinity = false
is_zero minus_infinity = false
is_zero nan = false

-- Python's truth value; a missing value is `None`.
abbrev pub truthy : Option Value → Bool
truthy none = false
truthy (some null) = false
truthy (some (obj end)) = false
truthy (some (obj (field k v d))) = true
truthy (some (arr nil)) = false
truthy (some (arr (cons v vs))) = true
truthy (some (time n)) = true
truthy (some (str s)) = not (str_eq s "")
truthy (some (num x)) = not (is_zero x)
truthy (some (bool b)) = b

-- `str(v or "")`, with the printing of the values that are not texts.
abbrev pub printed : (Value → String) → Option Value → String
printed show none = ""
printed show (some null) = ""
printed show (some (obj d)) = if truthy (some (obj d)) then show (obj d) else ""
printed show (some (arr vs)) = if truthy (some (arr vs)) then show (arr vs) else ""
printed show (some (time n)) = show (time n)
printed show (some (str s)) = s
printed show (some (num x)) = if is_zero x then "" else show (num x)
printed show (some (bool b)) = if b then show (bool b) else ""

-- `v or ""`, for a value that the model keeps a text in.
abbrev pub text_value : Option Value → String
text_value none = ""
text_value (some null) = ""
text_value (some (obj d)) = ""
text_value (some (arr vs)) = ""
text_value (some (time n)) = ""
text_value (some (str s)) = s
text_value (some (num x)) = ""
text_value (some (bool b)) = ""
