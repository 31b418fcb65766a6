-- ===== src/Prelude/Strip.antt =====
-- `s.strip()`, with the characters that Python counts as white space.
use Prim.Native.Char.{Char, code}
use Prim.Native.Nat.{ℕ}
use Prim.Native.String as Text
use Prim.Native.String.{String}
use mathlib.Core.Bool.{Bool, ◌&&◌, ◌||◌}
use aiops_apm_anomaly_detect.Prelude.Tests.{if◌then◌else◌, ◌==◌, leb}

abbrev within : ℕ → ℕ → ℕ → Bool
within lo hi n = leb lo n && leb n hi

-- `c.isspace()`
abbrev pub is_space : Char → Bool
is_space c =
    let n = code c in
    (within 9 13 n || within 28 32 n)
    || ((n == 133 || n == 160) || (n == 5760 || within 8192 8202 n))
    || ((n == 8232 || n == 8233) || (n == 8239 || (n == 8287 || n == 12288)))

unfoldable pub lstrip : String → String
lstrip Text.[] = Text.[]
lstrip (Text.◌∷◌ c s) = let rest = lstrip s in if is_space c then rest else Text.◌∷◌ c s

-- A character that ends the text after white space was cut.
abbrev cut : Char → String → String
cut c Text.[] = if is_space c then Text.[] else Text.◌∷◌ c Text.[]
cut c (Text.◌∷◌ d s) = Text.◌∷◌ c (Text.◌∷◌ d s)

unfoldable pub rstrip : String → String
rstrip Text.[] = Text.[]
rstrip (Text.◌∷◌ c s) = cut c (rstrip s)

unfoldable pub strip : String → String
unfolding lstrip rstrip
strip s = rstrip (lstrip s)
