-- ===== src/Common/Utf8.antt =====
-- `std::str::from_utf8`: which byte strings are the UTF-8 of a text.
use Prim.Native.Nat.{ℕ}
use mathlib.Core.Path.{◌≡◌}
use mathlib.Core.Bool.{Bool, true, ◌&&◌, ◌||◌}
use mathlib.Core.List.{[], ◌∷◌}
use attached.Common.Tests.{ltb, leb, ◌==◌}
use attached.Common.Words.{Bytes}

abbrev pub within : ℕ → ℕ → ℕ → Bool
within lo hi c = leb lo c && leb c hi

-- The range of the second byte that the lead byte allows: no overlong form, no surrogate, and
-- nothing above U+10FFFF.
second_byte : ℕ → ℕ → Bool
second_byte lead c =
    within 0x80 0xbf c
    && (ltb lead 0xe0
        || within 0xe1 0xec lead
        || within 0xee 0xef lead
        || within 0xf1 0xf3 lead
        || (lead == 0xe0 && leb 0xa0 c)
        || (lead == 0xed && leb c 0x9f)
        || (lead == 0xf0 && leb 0x90 c)
        || (lead == 0xf4 && leb c 0x8f))

unfoldable pub is_utf8 : Bytes → Bool
unfolding second_byte
is_utf8 [] = true
is_utf8 (a ∷ []) = ltb a 0x80
is_utf8 (a ∷ b ∷ []) = (ltb a 0x80 && ltb b 0x80) || (within 0xc2 0xdf a && second_byte a b)
is_utf8 (a ∷ b ∷ c ∷ []) =
    (ltb a 0x80 && is_utf8 (b ∷ c ∷ []))
    || (within 0xc2 0xdf a && second_byte a b && is_utf8 (c ∷ []))
    || (within 0xe0 0xef a && second_byte a b && within 0x80 0xbf c)
is_utf8 (a ∷ b ∷ c ∷ d ∷ rest) =
    (ltb a 0x80 && is_utf8 (b ∷ c ∷ d ∷ rest))
    || (within 0xc2 0xdf a && second_byte a b && is_utf8 (c ∷ d ∷ rest))
    || (within 0xe0 0xef a && second_byte a b && within 0x80 0xbf c && is_utf8 (d ∷ rest))
    || (within 0xf0 0xf4 a
        && second_byte a b
        && within 0x80 0xbf c
        && within 0x80 0xbf d
        && is_utf8 rest)

-- A Rust `String`: bytes that are UTF-8.
pub record IsText (s : Bytes) : Type 0 where
  pub bytes : is_utf8 s ≡ true
