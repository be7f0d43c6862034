-- ===== src/Prelude/Text.antt =====
-- Formatted strings: the parts of an f-string, put together.
use Prim.Native.String.{String, ◌++◌}
use mathlib.Core.List.{List, [], ◌∷◌}

abbrev pub fstring : List String → String
fstring [] = ""
fstring (s ∷ ss) = s ++ fstring ss

-- `separator.join(parts)`
abbrev pub join : String → List String → String
join separator [] = ""
join separator (s ∷ []) = s
join separator (s ∷ t ∷ ss) = s ++ (separator ++ join separator (t ∷ ss))
