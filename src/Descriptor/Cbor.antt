-- ===== src/Descriptor/Cbor.antt =====
-- crates/session-sync-protocol/src/canonical.rs: the deterministic CBOR heads that a host access
-- descriptor is made of: `put_head` and its kin, and `Decoder`.
pub mod Heads
pub mod Decode
pub mod Canonical
pub mod Shortest
use Prim.Native.Nat.{bit_and, bit_or}
use attached.Common.{
  ℕ, ◌+◌, ◌*◌, ◌/◌, ◌%◌, ◌^◌, Bool, true, false, not, ◌&&◌, ◌||◌, ltb, leb, ◌==◌, if◌then◌else◌,
  none, some, [], ◌∷◌, ◌++◌, length, take, drop, get_elem?, ok, err, Bytes, to_be_bytes,
  from_be_bytes, is_utf8,
}
use attached.Action.{Action, ◌>>=◌, ◌>>◌, pure, bail, ensure}

pub data HostAccessError : Type 0 where
  malformed non_canonical limit invalid_field endpoint expired decryption nonce_reuse :
      HostAccessError

-- `(major << 5) | value as u8`, on `u8`.
unfoldable pub head_byte : ℕ → ℕ → ℕ
head_byte major value = bit_or (major * 32 % 256) (value % 256)

-- `out` with the head behind it.
unfoldable pub put_head : Bytes → ℕ → ℕ → Bytes
put_head out major value =
    if leb value 23
    then out ++ head_byte major value ∷ []
    else if leb value 0xff
    then (out ++ head_byte major 24 ∷ []) ++ (value % 256) ∷ []
    else if leb value 0xffff
    then (out ++ head_byte major 25 ∷ []) ++ to_be_bytes 2 (value % 2 ^ 16)
    else if leb value 0xffff_ffff
    then (out ++ head_byte major 26 ∷ []) ++ to_be_bytes 4 (value % 2 ^ 32)
    else (out ++ head_byte major 27 ∷ []) ++ to_be_bytes 8 value

unfoldable pub put_uint : Bytes → ℕ → Bytes
put_uint out value = put_head out 0 value

unfoldable pub put_bytes : Bytes → Bytes → Bytes
put_bytes out value = put_head out 2 (length value) ++ value

unfoldable pub put_text : Bytes → Bytes → Bytes
put_text out value = put_head out 3 (length value) ++ value

pub record Decoder : Type 0 where
  pub input : Bytes
  pub position : ℕ

-- An action of the decoder.
abbrev pub Decode : Type 0 → Type 0
Decode A = Action HostAccessError Decoder A

unfoldable pub byte : Decode ℕ
byte d = elim (get_elem? d.input d.position) [
  | none ↦ err malformed
  | some value ↦ ok (value, record d { position = d.position + 1 })
]

-- `usize` has 64 bits. `get(position..end)` is there if the end is in the input.
unfoldable pub take_bytes : ℕ → Decode Bytes
take_bytes len d =
    if not (ltb (d.position + len) (2 ^ 64))
    then err limit
    else if leb (d.position + len) (length d.input)
    then ok (take len (drop d.position d.input), record d { position = d.position + len })
    else err malformed

-- The `match additional`.
unfoldable pub head_value : ℕ → Decode ℕ
head_value additional =
    if leb additional 23
    then pure additional
    else if additional == 24
    then byte
    else if additional == 25
    then (do bytes ← take_bytes 2; pure (from_be_bytes bytes))
    else if additional == 26
    then (do bytes ← take_bytes 4; pure (from_be_bytes bytes))
    else if additional == 27
    then (do bytes ← take_bytes 8; pure (from_be_bytes bytes))
    else bail malformed

-- The value would have fitted a shorter head.
unfoldable pub is_overlong : ℕ → ℕ → Bool
is_overlong additional value =
    (additional == 24 && ltb value 24)
    || (additional == 25 && leb value 255)
    || (additional == 26 && leb value 65_535)
    || (additional == 27 && leb value 0xffff_ffff)

unfoldable pub head : ℕ → Decode ℕ
head expected_major = do
  first ← byte
  ensure (first / 32 == expected_major) malformed
  value ← head_value (bit_and first 31)
  ensure (not (is_overlong (bit_and first 31) value)) non_canonical
  pure value

unfoldable pub uint : Decode ℕ
uint = head 0

unfoldable pub key : ℕ → Decode (Unit {0})
key expected = do value ← uint; ensure (value == expected) non_canonical

unfoldable pub fixed_bytes : ℕ → Decode Bytes
fixed_bytes n = do len ← head 2; ensure (len == n) malformed; take_bytes n

unfoldable pub text : ℕ → ℕ → Decode Bytes
text minimum maximum = do
  len ← head 3
  ensure (not (ltb len minimum || ltb maximum len)) limit
  value ← take_bytes len
  ensure (is_utf8 value) malformed
  pure value
