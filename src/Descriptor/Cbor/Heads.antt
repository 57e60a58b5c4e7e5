-- ===== src/Descriptor/Cbor/Heads.antt =====
-- crates/session-sync-protocol/src/canonical.rs: what `put_head` writes, in plain arithmetic.
use Prim.Native.Nat.{bit_and, bit_or}
use mathlib.Core.Path.{ap₂}
use native.Mathlib.Decide.{dec_lt}
use attached.Common.{
  ℕ, zero, suc, ◌+◌, ◌*◌, ◌/◌, ◌%◌, ◌^◌, ◌<◌, ◌≤◌, Bool, true, false, sym, leb, ◌==◌, if◌then◌else◌,
  ==→eq, [], ◌∷◌, ◌++◌, ◌≡◌, refl, ap, ◌∙◌, le→leb, lt→leb_false, Bytes, to_be_bytes, arith,
  append_assoc, length, length-to_be_bytes,
}
use attached.Descriptor.Cbor.{head_byte, put_head}

-- Whether two functions have the same values at the first n numbers.
same_values : (ℕ → ℕ) → (ℕ → ℕ) → ℕ → Bool
same_values f g zero = true
same_values f g (suc n) = if f n == g n then same_values f g n else false

at_byte : (f g : ℕ → ℕ) (n x : ℕ) → same_values f g n ≡ true → x < n → f x ≡ g x
unfolding same_values
at_byte f g zero x agree small = absurd (omega arith)
at_byte f g (suc n) x agree small = elim (dec_lt x n) [
  | yes below ↦ at_byte f g n x (ground arith) below
  | no last ↦
      let here : x ≡ n = omega arith in
      ap f here ∙ ==→eq (f n) (g n) (ground arith) ∙ ap g (sym here)
]

-- The mask takes the low five bits of a byte.
low_bits_table : same_values (λ b. bit_and b 31) (λ b. b % 32) 256 ≡ true
unfolding same_values
low_bits_table = refl

-- The high three bits and the low five together are the byte.
halves_table : same_values (λ b. bit_or (b / 32 * 32 % 256) (b % 32 % 256)) (λ b. b) 256 ≡ true
unfolding same_values
halves_table = refl

pub low_bits : (b : ℕ) → b < 256 → bit_and b 31 ≡ b % 32
low_bits b h = at_byte _ _ 256 b low_bits_table h

pub head_byte-parts : (b : ℕ) → b < 256 → head_byte (b / 32) (b % 32) ≡ b
unfolding head_byte
head_byte-parts b h = at_byte _ _ 256 b halves_table h

pub head_byte-add : (major v : ℕ) → major < 8 → v < 32 → head_byte major v ≡ major * 32 + v
head_byte-add major v hm hv =
    let high : major ≡ (major * 32 + v) / 32 = omega arith in
    let low : v ≡ (major * 32 + v) % 32 = omega arith in
    ap₂ head_byte high low ∙ head_byte-parts (major * 32 + v) (omega arith)

-- The bytes of a head.
pub data Width : Type 0 where
  direct one two four eight : Width

abbrev pub extra : Width → ℕ
extra direct = 0
extra one = 1
extra two = 2
extra four = 4
extra eight = 8

-- The low five bits of the first byte.
abbrev pub additional : Width → ℕ → ℕ
additional direct v = v
additional one v = 24
additional two v = 25
additional four v = 26
additional eight v = 27

-- The values that are written at a width.
abbrev pub Fits : Width → ℕ → Type 0
Fits direct v = v < 24
Fits one v = (24 ≤ v) × (v < 256)
Fits two v = (256 ≤ v) × (v < 65536)
Fits four v = (65536 ≤ v) × (v < 2 ^ 32)
Fits eight v = (2 ^ 32 ≤ v) × (v < 2 ^ 64)

abbrev pub head_bytes : Width → ℕ → ℕ → Bytes
head_bytes w major v = (major * 32 + additional w v) ∷ to_be_bytes (extra w) v

unfoldable pub width : ℕ → Width
width v =
    if leb v 23
    then direct
    else if leb v 0xff
    then one
    else if leb v 0xffff
    then two
    else if leb v 0xffff_ffff
    then four
    else eight

pub width-Fits : (v : ℕ) → v < 2 ^ 64 → Fits (width v) v
unfolding width
width-Fits v h = ground arith

pub put_head-head_bytes :
    (w : Width) (out : Bytes) (major v : ℕ)
    → major < 8
    → Fits w v
    → put_head out major v ≡ out ++ head_bytes w major v
unfolding put_head to_be_bytes
put_head-head_bytes direct out major v hm h =
    rw (le→leb v 23 (omega arith))
      (ap (λ (b : ℕ). out ++ b ∷ []) (head_byte-add major v hm (omega arith)))
put_head-head_bytes one out major v hm (lo, hi) =
    rw (lt→leb_false v 23 lo, le→leb v 255 (omega arith), head_byte-add major 24 hm (omega arith))
      (append_assoc out _ _)
put_head-head_bytes two out major v hm (lo, hi) =
    let small : v % 65536 ≡ v = omega arith in
    rw
      (
        lt→leb_false v 23 (omega arith),
        lt→leb_false v 255 lo,
        le→leb v 65535 (omega arith),
        small,
        head_byte-add major 25 hm (omega arith),
      )
      (append_assoc out _ _)
put_head-head_bytes four out major v hm (lo, hi) =
    let small : v % 4294967296 ≡ v = omega arith in
    rw
      (
        lt→leb_false v 23 (omega arith),
        lt→leb_false v 255 (omega arith),
        lt→leb_false v 65535 lo,
        le→leb v 4294967295 (omega arith),
        small,
        head_byte-add major 26 hm (omega arith),
      )
      (append_assoc out _ _)
put_head-head_bytes eight out major v hm (lo, hi) =
    rw
      (
        lt→leb_false v 23 (omega arith),
        lt→leb_false v 255 (omega arith),
        lt→leb_false v 65535 (omega arith),
        lt→leb_false v 4294967295 lo,
        head_byte-add major 27 hm (omega arith),
      )
      (append_assoc out _ _)

-- A head as a byte string of its own.
unfoldable pub head_of : ℕ → ℕ → Bytes
head_of major v = head_bytes (width v) major v

pub put_head-append :
    (out : Bytes) (major v : ℕ)
    → major < 8
    → v < 2 ^ 64
    → put_head out major v ≡ out ++ head_of major v
unfolding head_of
put_head-append out major v hm hv = put_head-head_bytes (width v) out major v hm (width-Fits v hv)

extra-le : (w : Width) → extra w ≤ 8
extra-le direct = omega arith
extra-le _ = omega arith

pub length-head_of : (major v : ℕ) → length (head_of major v) ≤ 9
unfolding head_of
length-head_of major v = omega (arith, length-to_be_bytes (extra (width v)) v, extra-le (width v))
