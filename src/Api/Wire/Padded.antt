-- ===== src/Api/Wire/Padded.antt =====
-- An encoding that meets the laws of base64 that crates/session-sync-protocol/src/api.rs relies on.
use attached.Common.{
  ℕ, zero, suc, ◌+◌, ◌-◌, ◌*◌, ◌/◌, leb, le→leb, if◌then◌else◌, length, take, length-append,
  take-append, [], ◌∷◌, ◌++◌, Bytes, ◌≡◌, refl, ap, none, some, arith,
}
use attached.Api.Wire.{Base64}
use attached.Api.Wire.Decoding.{Base64Laws}

-- An encoding with the lengths of base64: the bytes, filled up with letters.
abbrev pub padding : ℕ → Bytes
padding zero = []
padding (suc n) = b'A' ∷ padding n

abbrev pub padded : Base64
padded = record {
  encode = λ bytes. bytes ++ padding ((length bytes * 4 + 2) / 3 - length bytes);
  decode_slice = λ value room.
      if leb (length value * 3 / 4) room then some (take (length value * 3 / 4) value) else none;
  decode = λ value. some (take (length value * 3 / 4) value);
}

length-padding : (n : ℕ) → length (padding n) ≡ n
length-padding zero = refl
length-padding (suc n) = ap suc (length-padding n)

padded_length : (bytes : Bytes) → length (padded.encode bytes) ≡ (length bytes * 4 + 2) / 3
padded_length bytes = omega (
  arith,
  length-append bytes (padding ((length bytes * 4 + 2) / 3 - length bytes)),
  length-padding ((length bytes * 4 + 2) / 3 - length bytes),
)

pub padded_laws : Base64Laws padded
padded_laws = record {
  decode_encode = λ bytes room h.
      let upper : length (padded.encode bytes) * 3 / 4 ≡ length bytes =
        omega (arith, padded_length bytes) in
      rw (upper, le→leb (length bytes) room h)
        (ap some (take-append bytes (padding ((length bytes * 4 + 2) / 3 - length bytes))));
  decode_whole = λ bytes.
      let upper : length (padded.encode bytes) * 3 / 4 ≡ length bytes =
        omega (arith, padded_length bytes) in
      rw upper (ap some (take-append bytes (padding ((length bytes * 4 + 2) / 3 - length bytes))));
  encode_length = padded_length;
}
