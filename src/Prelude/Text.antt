-- ===== src/Prelude/Text.antt =====
-- Go strings that the program compares, looks up, or cuts at a byte: the native texts.
pub use Prim.Native.String.{String, slice, ◌++◌ as text_append}
pub use text.Mathlib.Text.{◌==◌ as str_eq, starts_with, find?}
pub use text.Mathlib.TextEquality.{eq_iff}
pub use text.Mathlib.TextPositions.{eq_refl}
