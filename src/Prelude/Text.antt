-- ===== src/Prelude/Text.antt =====
-- Formatted names: `fmt.Sprintf` with `%s`.
use Prim.Native.String.{String, ◌++◌}
use mathlib.Core.Path.{◌≡◌}
use text.Mathlib.TextLemmas.{append_assoc}

-- "%s%s"
abbrev pub format2 : String → String → String
format2 a b = a ++ b

-- "%s-%s"
abbrev pub dashed : String → String → String
dashed a b = (a ++ "-") ++ b

pub dashed_lem : (a b : String) → dashed a b ≡ format2 a (format2 "-" b)
dashed_lem a b = append_assoc a "-" b
