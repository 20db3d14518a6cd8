-- ===== src/Prelude/Texts.antt =====
-- Texts that the program only compares or tests for emptiness are native strings. Their byte
-- length is `len`, as Go's.
use Prim.Native.String.{String, ◌++◌}
use mathlib.Core.Path.{◌≡◌}
use mathlib.Core.Bool.{Bool, true}
pub use text.Mathlib.Text.{◌==◌ as str_eq}
pub use text.Mathlib.TextEquality.{eq_iff}

-- The test `s == ""`, and `len(s) == 0`.
abbrev pub is_empty : String → Bool
is_empty s = str_eq s ""

pub str_eq_refl : (s : String) → str_eq s s ≡ true
str_eq_refl s = (eq_iff s s).1 (λ i. s)

-- `a + b`
abbrev pub join : String → String → String
join a b = a ++ b
