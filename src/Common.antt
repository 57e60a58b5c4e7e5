-- ===== src/Common.antt =====
-- The names that the other modules share: the libraries', passed on, and those of the children.
mod Tests
mod Lists
mod Results
mod Words
mod Utf8
mod Decimal
pub use Tests.{
  ltb, leb, ◌==◌, if◌then◌else◌, Bool-cases, and-eq-true, Option-cases, bytes_eq_iff, bytes_eq_refl,
  ==→eq, eq→==, lt→ltb, le→ltb_false, le→leb, lt→leb_false,
}
unfoldable pub use Tests.{bytes_eq}
pub use Lists.*
pub use Results.*
pub use Words.{
  Bytes, IsByte, AreBytes, from_be_bytes-to_be_bytes, length-to_be_bytes, to_be_bytes-AreBytes,
  from_be_bytes-lt, to_be_bytes-from_be_bytes,
}
unfoldable pub use Words.{to_be_bytes, from_be_bytes}
pub use Decimal.{
  is_empty, IsNumeral, print_decimal-IsNumeral, parse_onto-lt, print-parse,
  parse_unsigned-print_decimal,
}
unfoldable pub use Decimal.{parse_unsigned, parse_onto, print_decimal}
pub use Utf8.{within, IsText}
unfoldable pub use Utf8.{is_utf8}
pub use Prim.Native.Nat.{ℕ, zero, suc, ◌+◌, ◌-◌, ◌*◌, ◌/◌, ◌%◌, ◌^◌, ◌≤◌, ◌<◌}
pub use mathlib.Core.Path.{◌≡◌, refl, sym, ap, ◌∙◌}
pub use mathlib.Core.Logic.{◌≢◌, ◌↔◌, ◌⊎◌, inl, inr}
pub use mathlib.Core.Bool.{Bool, true, false, not, ◌&&◌, ◌||◌}
pub use mathlib.Core.Option.{Option, none, some}
pub use mathlib.Core.List.{List, [], ◌∷◌, ◌++◌, append_assoc, append-nil}
pub use native.Mathlib.Omega.{arith}
