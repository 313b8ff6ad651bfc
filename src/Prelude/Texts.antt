-- ===== src/Prelude/Texts.antt =====
-- std::string as the native text of its bytes, one character for each byte.
use Prim.Native.String.{String}
use mathlib.Core.Bool.{Bool, true, false}
pub use text.Mathlib.Text.{◌==◌ as str_eq, starts_with}
pub use text.Mathlib.TextEquality.{eq_iff as str_eq_iff}
pub use text.Mathlib.TextPositions.{eq_refl as str_eq_refl, starts_with-append}
pub use Prim.Native.String.{◌++◌ as append}

abbrev pub is_empty : String → Bool
is_empty String.[] = true
is_empty (String.◌∷◌ c s) = false
