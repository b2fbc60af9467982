-- ===== src/Common/Text.antt =====
-- Texts: `+` and `empty()` of `std::string`.
use Prim.Native.String.{String, ◌++◌}
use mathlib.Core.Bool.{Bool, true, false}

abbrev pub concat : String → String → String
concat s t = s ++ t

abbrev pub is_empty : String → Bool
is_empty String.[] = true
is_empty (String.◌∷◌ c s) = false
