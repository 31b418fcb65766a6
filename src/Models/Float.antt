-- ===== src/Models/Float.antt =====
-- Python's `float`, as far as the program uses it: comparisons. A finite double is an integer
-- multiple of 2^-1074, so its value is that integer and comparisons are exact. Arithmetic and
-- printing of floats are parameters of the functions that use them.
use aiops_apm_anomaly_detect.Prelude.{ℕ, ◌*◌, ◌^◌, Bool, true, false}
use aiops_apm_anomaly_detect.Prelude.Int.{ℤ, pos, leb_ℤ, ltb_ℤ}

pub data Float : Type 0 where
  finite : ℤ → Float
  infinity minus_infinity nan : Float

-- `a < b`; every comparison with a NaN fails.
unfoldable pub float_lt : Float → Float → Bool
float_lt nan b = false
float_lt (finite a) (finite b) = ltb_ℤ a b
float_lt (finite a) infinity = true
float_lt minus_infinity (finite b) = true
float_lt minus_infinity infinity = true
float_lt a b = false

-- `a <= b`
unfoldable pub float_le : Float → Float → Bool
float_le nan b = false
float_le a nan = false
float_le minus_infinity b = true
float_le a infinity = true
float_le (finite a) (finite b) = leb_ℤ a b
float_le a b = false

-- The double, or the exact integer, with the value `n`.
unfoldable pub from_int : ℕ → Float
from_int n = finite (pos (n * 2 ^ 1074))
