-- ===== src/Tunnel/Examples.antt =====
-- Concrete messages of crates/tunnel-protocol, and its theorems at them.
use attached.Action.{ensure, ◌>>=◌}
use attached.Common.{
  ℕ, ◌≡◌, ◌↔◌, refl, true, [], ◌∷◌, ◌++◌, Bytes, ok, err, arith, to_be_bytes, from_be_bytes,
  bytes_eq,
}
use attached.Stream.{trailing_bytes, unknown_status, read_uint}
use attached.Stream.Slices.{slice, slice-Delivers}
use attached.Tunnel.Wire.{AttachedVersion, ensure_frame_end}
use attached.Tunnel.Request.{
  start, encode_request, read_attached_update_request, read_operation, RequestInRange,
}
use attached.Tunnel.Request.Framing.{read_request_iff}
use attached.Tunnel.Response.{
  failed, encode_response, read_attached_update_response, read_status, ResponseInRange,
}
use attached.Tunnel.Response.Framing.{read_response_iff}

abbrev eight : ℕ → Bytes
eight b = b ∷ b ∷ b ∷ b ∷ b ∷ b ∷ b ∷ b ∷ []

abbrev secret : Bytes
secret = eight 7 ++ eight 7 ++ eight 7 ++ eight 7

abbrev other_secret : Bytes
other_secret = eight 8 ++ eight 7 ++ eight 7 ++ eight 7

abbrev version : AttachedVersion
version = record { major = 0; minor = 258; patch = 3 }

-- The bytes of a request to start, as `tests.rs` writes them.
start_bytes : encode_request secret start ≡ b'A' ∷ b'T' ∷ b'U' ∷ b'P' ∷ 2 ∷ 0 ∷ secret
unfolding to_be_bytes
start_bytes = refl

trailing :
    read_attached_update_request slice secret (encode_request secret start ++ 9 ∷ [], true)
    ≡ err trailing_bytes
unfolding read_attached_update_request read_operation ensure_frame_end read_uint ensure ◌>>=◌
    to_be_bytes from_be_bytes bytes_eq
trailing = refl

unknown :
    read_attached_update_response slice (b'A' ∷ b'T' ∷ b'U' ∷ b'P' ∷ 2 ∷ 6 ∷ [], true)
    ≡ err (unknown_status 6)
unfolding read_attached_update_response read_status read_uint ensure ◌>>=◌ from_be_bytes bytes_eq
unknown = refl

read_request_iff_example :
    (read_attached_update_request slice secret (encode_request secret start, true)
      ≡ ok (start, ([], true)))
    ↔ ((encode_request secret start ≡ encode_request secret start)
        × (true ≡ true)
        × RequestInRange start)
unfolding to_be_bytes
read_request_iff_example =
    read_request_iff slice-Delivers secret (encode_request secret start) true start (omega arith)
      refl

abbrev nay : Bytes
nay = b'n' ∷ b'o' ∷ []

read_response_iff_example :
    (read_attached_update_response slice (encode_response (failed nay), true)
      ≡ ok (failed nay, ([], true)))
    ↔ ((encode_response (failed nay) ≡ encode_response (failed nay))
        × (true ≡ true)
        × ResponseInRange (failed nay))
unfolding to_be_bytes
read_response_iff_example =
    read_response_iff slice-Delivers (encode_response (failed nay)) true (failed nay) (omega arith)
