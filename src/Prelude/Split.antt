-- ===== src/Prelude/Split.antt =====
-- `s.split(sep)` for a separator of one character.
use Prim.Native.Char.{Char, code}
use Prim.Native.Nat.{ℕ}
use Prim.Native.String as Text
use Prim.Native.String.{String}
use mathlib.Core.List.{List, [], ◌∷◌}
use aiops_apm_anomaly_detect.Prelude.Tests.{if◌then◌else◌, ◌==◌}

-- The first part gets one more character in front.
abbrev pub extend_first : Char → List String → List String
extend_first c [] = Text.◌∷◌ c "" ∷ []
extend_first c (s ∷ r) = Text.◌∷◌ c s ∷ r

unfoldable pub split_at : ℕ → String → List String
split_at sep Text.[] = "" ∷ []
split_at sep (Text.◌∷◌ c s) =
    let rest = split_at sep s in if code c == sep then "" ∷ rest else extend_first c rest

-- `s.split(",")`
unfoldable pub split_commas : String → List String
unfolding split_at
split_commas s = split_at 44 s
