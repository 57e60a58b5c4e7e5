-- ===== src/Tunnel/Forward/Framing.antt =====
-- crates/tunnel-protocol/src/tcp_forward.rs: the readers accept exactly what the writers send, and
-- a status or marker leaves the bytes of the forwarded connection untouched.
use attached.Action.Steps.{ensure_pass, ensure-eq-ok, pure-eq-ok}
use attached.Action.{ensure}
use attached.Common.{
  ◌↔◌, ℕ, ◌<◌, ◌^◌, ◌==◌, not, bytes_eq, bytes_eq_iff, bytes_eq_refl, Bool, true, false, [], ◌∷◌,
  ◌++◌, ◌≡◌, refl, sym, ap, ◌∙◌, length, ok, Bytes, AreBytes, to_be_bytes, arith, append_assoc,
  append-nil, join_parts,
}
use attached.Stream.{AsyncRead, AsyncWrite, Delivers, Accepts}
use attached.Stream.Steps.{
  read_exact_step, read_uint_step, read_uint_last, read_exact-eq-ok, read_uint-eq-ok,
  write_all_step, write_uint_step,
}
use attached.Tunnel.Wire.{CapabilitySecret}
use attached.Tunnel.Wire.Steps.{frame_end_step, frame_end-eq-ok}
use attached.Tunnel.Forward.{
  TcpForwardStatus, ready, connection_failed, write_tcp_forward_request, write_tcp_forward_status,
  write_tcp_forward_open, read_tcp_forward_request, status_of_byte, read_tcp_forward_status,
  read_tcp_forward_open, encode_forward,
}

port_test : (port : ℕ) → 0 < port → not (port == 0) ≡ true
port_test port h = ground arith

module _ {W : Type 0} {w : AsyncWrite W} (a : Accepts w) where
  pub write_forward-encode_forward :
      (capability out : Bytes) (port : ℕ)
      → 0 < port
      → write_tcp_forward_request w capability port (a.sent out false)
        ≡ ok (tt, a.sent (out ++ encode_forward capability port) true)
  unfolding write_tcp_forward_request
  write_forward-encode_forward capability out port h =
      ensure_pass _ _ _ _ (port_test port h)
      ∙ write_all_step a capability out _
      ∙ write_uint_step a 2 port _ _
      ∙ a.shutdown_open _
      ∙ simp append_assoc

module _ {R : Type 0} {r : AsyncRead R} (d : Delivers r) where
  pub read-encode_forward :
      (capability : CapabilitySecret) (port : ℕ)
      → length capability ≡ 32
      → 0 < port
      → port < 256 ^ 2
      → read_tcp_forward_request r capability (d.at (encode_forward capability port) true)
        ≡ ok (port, d.at [] true)
  unfolding read_tcp_forward_request
  read-encode_forward capability port n h u =
      read_exact_step d 32 _ capability _ true n
      ∙ ensure_pass (bytes_eq capability capability) _ _ _ (bytes_eq_refl capability)
      ∙ read_uint_last d 2 port _ true u
      ∙ ensure_pass _ _ _ _ (port_test port h)
      ∙ frame_end_step d _

  pub read_forward-eq-ok :
      (expected bs : Bytes) (e : Bool) {port : ℕ} {s : R}
      → AreBytes bs
      → read_tcp_forward_request r expected (d.at bs e) ≡ ok (port, s)
      → (bs ≡ encode_forward expected port)
        × (e ≡ true)
        × (0 < port)
        × (port < 256 ^ 2)
        × (length expected ≡ 32)
  unfolding read_tcp_forward_request
  read_forward-eq-ok expected bs e {port} b h =
      let (supplied, bs₁, s₁, n, _, b₁, h₁) = read_exact-eq-ok d 32 _ bs e b h in
      let (same, h₂) = ensure-eq-ok (bytes_eq expected supplied) _ _ _ h₁ in
      let (port', bs₂, s₂, u16, b₂, h₃) = read_uint-eq-ok d 2 _ bs₁ e b₁ h₂ in
      let (positive, h₄) = ensure-eq-ok (not (port' == 0)) _ _ _ h₃ in
      let (nothing, ended, h₅) = frame_end-eq-ok d _ bs₂ e h₄ in
      let (returned, _) = pure-eq-ok port' port h₅ in
      let equal = sym ((bytes_eq_iff expected supplied).0 same) in
      (
        join_parts _ _ _ _ s₁ equal (
            s₂
            ∙ ap (λ (t : Bytes). to_be_bytes 2 port' ++ t) nothing
            ∙ append-nil _
            ∙ ap (to_be_bytes 2) returned),
        ended,
        ground arith,
        omega (arith, u16, returned),
        ap length (sym equal) ∙ n,
      )

  -- On a stream that delivers `bs`, the reader returns a port exactly when the stream holds the
  -- expected capability and that port, which is not 0 and fits 16 bits, and then ends.
  pub read_forward_iff :
      (expected bs : Bytes) (e : Bool) (port : ℕ)
      → AreBytes bs
      → length expected ≡ 32
      → (read_tcp_forward_request r expected (d.at bs e) ≡ ok (port, d.at [] true))
        ↔ ((bs ≡ encode_forward expected port) × (e ≡ true) × (0 < port) × (port < 256 ^ 2))
  read_forward_iff expected bs e port b n = (
    λ h.
        let (whole, ended, positive, u16, _) = read_forward-eq-ok expected bs e b h in
        (whole, ended, positive, u16),
    λ k. rw (k.0, k.1) (read-encode_forward expected port n k.2 k.3),
  )

module _ {R W : Type 0} {r : AsyncRead R} {w : AsyncWrite W} (d : Delivers r) (a : Accepts w) where
  -- A status is written as one byte; the reader returns it and leaves all that follows.
  pub status_roundtrip :
      (status : TcpForwardStatus) (out rest : Bytes) (e : Bool)
      → (sent : Bytes) × (write_tcp_forward_status w status (a.sent out false)
          ≡ ok (tt, a.sent (out ++ sent) false))
        × (read_tcp_forward_status r (d.at (sent ++ rest) e) ≡ ok (status, d.at rest e))
        × (length sent ≡ 1)
  unfolding write_tcp_forward_status read_tcp_forward_status status_of_byte to_be_bytes
  status_roundtrip ready out rest e = (
    0 ∷ [],
    write_uint_step a 1 0 out _ ∙ a.flush_open _,
    read_uint_step d 1 0 _ rest e (omega arith),
    refl,
  )
  status_roundtrip connection_failed out rest e = (
    1 ∷ [],
    write_uint_step a 1 1 out _ ∙ a.flush_open _,
    read_uint_step d 1 1 _ rest e (omega arith),
    refl,
  )

  -- The open marker is one byte, which the reader takes, leaving all that follows.
  pub open_roundtrip :
      (out rest : Bytes) (e : Bool)
      → (sent : Bytes) × (write_tcp_forward_open w (a.sent out false)
          ≡ ok (tt, a.sent (out ++ sent) false))
        × (read_tcp_forward_open r (d.at (sent ++ rest) e) ≡ ok (tt, d.at rest e))
        × (length sent ≡ 1)
  unfolding write_tcp_forward_open read_tcp_forward_open ensure to_be_bytes
  open_roundtrip out rest e = (
    0 ∷ [],
    write_uint_step a 1 0 out _ ∙ a.flush_open _,
    read_uint_step d 1 0 _ rest e (omega arith),
    refl,
  )

  -- What the request writer sends for a capability of 32 bytes and a port from 1 to 65535, the
  -- request reader takes with that capability, and returns the port.
  pub forward_roundtrip :
      (capability : CapabilitySecret) (port : ℕ)
      → length capability ≡ 32
      → 0 < port
      → port < 256 ^ 2
      → (sent : Bytes) × (write_tcp_forward_request w capability port (a.sent [] false)
          ≡ ok (tt, a.sent sent true))
        × (read_tcp_forward_request r capability (d.at sent true) ≡ ok (port, d.at [] true))
  forward_roundtrip capability port n h u = (
    encode_forward capability port,
    write_forward-encode_forward a capability [] port h,
    read-encode_forward d capability port n h u,
  )
