-- ===== src/Tunnel/Response/Framing.antt =====
-- crates/tunnel-protocol/src/lib.rs: the reader of a response accepts exactly what the writer
-- sends.
use mathlib.Core.Path.{subst}
use attached.Action.Steps.{
  pure-eq-ok, >>=-ok, >>=-err, >>=_assoc, ensure_pass, ensure_fail, ensure-eq-ok,
}
use attached.Action.{◌>>=◌, pure}
use attached.Common.{
  ◌↔◌, ==→eq, ℕ, zero, suc, ◌<◌, ◌==◌, leb, bytes_eq, bytes_eq_iff, bytes_eq_refl, is_utf8, Bool,
  true, false, [], ◌++◌, ◌≡◌, refl, sym, ap, ◌∙◌, length, ok, err, Bytes, AreBytes, to_be_bytes,
  arith, append_assoc, append-nil, split_more, join_parts,
}
use attached.Stream.{
  too_long, unknown_status, Io, AsyncRead, AsyncWrite, read_uint, Delivers, Accepts,
}
use attached.Stream.Steps.{
  read_exact_step, read_uint_step, read_exact-eq-ok, read_uint-eq-ok, write_all_step,
  write_uint_step, write_uint_ok,
}
use attached.Tunnel.Wire.{
  attached_update_magic, attached_update_protocol_version, VersionInRange, read_attached_version,
  version_bytes, AttachedVersion,
}
use attached.Tunnel.Wire.Steps.{
  write_version_ok, write_version_step, read_version_step, read_version-eq-ok, frame_end_step,
  frame_end-eq-ok,
}
use attached.Tunnel.Response.{
  AttachedUpdateResponse, restarting, committed, current, failed, busy, waiting,
  write_response_body, write_attached_update_response, read_failed, read_restarting, read_status,
  read_attached_update_response, status_code, status_body, encode_response, ResponseInRange,
}

module _ {W : Type 0} {w : AsyncWrite W} (a : Accepts w) where
  write_body :
      (response : AttachedUpdateResponse) (out : Bytes)
      → ResponseInRange response
      → write_response_body w response (a.sent out false)
        ≡ ok (
          tt,
          a.sent (out ++ (to_be_bytes 1 (status_code response) ++ status_body response)) false,
        )
  unfolding write_response_body
  write_body (restarting id v secs) out h =
      write_uint_step a 1 0 out _
      ∙ write_all_step a id _ _
      ∙ write_version_step a v _ _
      ∙ write_uint_ok a 2 secs _
      ∙ simp append_assoc
  write_body (committed v) out h =
      write_uint_step a 1 1 out _ ∙ write_version_ok a v _ ∙ simp append_assoc
  write_body (current v) out h =
      write_uint_step a 1 2 out _ ∙ write_version_ok a v _ ∙ simp append_assoc
  write_body (failed message) out h =
      ensure_pass (leb (length message) 512) _ _ _ (ground arith)
      ∙ write_uint_step a 1 3 out _
      ∙ write_uint_step a 2 (length message) _ _
      ∙ a.write_all_open _ message
      ∙ simp append_assoc
  write_body busy out h = write_uint_ok a 1 4 out ∙ simp append-nil
  write_body waiting out h = write_uint_ok a 1 5 out ∙ simp append-nil

  -- The writer appends exactly the bytes of the response, and then ends the stream.
  pub write_response-encode_response :
      (response : AttachedUpdateResponse) (out : Bytes)
      → ResponseInRange response
      → write_attached_update_response w response (a.sent out false)
        ≡ ok (tt, a.sent (out ++ encode_response response) true)
  unfolding write_attached_update_response
  write_response-encode_response response out h =
      write_all_step a attached_update_magic out _
      ∙ write_uint_step a 1 attached_update_protocol_version _ _
      ∙ >>=-ok (write_response_body w response) _ _ (write_body response _ h)
      ∙ a.shutdown_open _
      ∙ simp append_assoc

  -- A message of more than 512 bytes is never sent.
  pub write_response_too_long :
      (message out : Bytes)
      → 512 < length message
      → write_attached_update_response w (failed message) (a.sent out false) ≡ err too_long
  unfolding write_attached_update_response write_response_body
  write_response_too_long message out h =
      write_all_step a attached_update_magic out _
      ∙ write_uint_step a 1 attached_update_protocol_version _ _
      ∙ >>=-err _ _ _ (ensure_fail (leb (length message) 512) _ _ _ (ground arith))

module _ {R : Type 0} {r : AsyncRead R} (d : Delivers r) where
  read_status_body :
      (response : AttachedUpdateResponse) (rest : Bytes) (e : Bool)
      → ResponseInRange response
      → read_status r (status_code response) (d.at (status_body response ++ rest) e)
        ≡ ok (response, d.at rest e)
  unfolding read_status read_failed read_restarting
  read_status_body (restarting id v secs) rest e (id_ok, v_ok, secs_ok) =
      rw (append_assoc, append_assoc)
        (read_exact_step d 16 _ id _ e id_ok.len
          ∙ read_version_step d v _ _ e v_ok
          ∙ read_uint_step d 2 secs _ rest e secs_ok)
  read_status_body (committed v) rest e h = read_version_step d v _ rest e h
  read_status_body (current v) rest e h = read_version_step d v _ rest e h
  read_status_body (failed message) rest e (short, text, _) = simp append_assoc (
      read_uint_step d 2 (length message) _ _ e (omega arith)
      ∙ ensure_pass (leb (length message) 512) _ _ _ (ground arith)
      ∙ read_exact_step d (length message) _ message rest e refl
      ∙ ensure_pass (is_utf8 message) _ _ _ text)
  read_status_body busy rest e h = refl
  read_status_body waiting rest e h = refl

  code_u8 : (response : AttachedUpdateResponse) → status_code response < 256
  code_u8 (restarting _ _ _) = omega arith
  code_u8 _ = omega arith

  -- The reader returns the response that was sent.
  pub read-encode_response :
      (response : AttachedUpdateResponse)
      → ResponseInRange response
      → read_attached_update_response r (d.at (encode_response response) true)
        ≡ ok (response, d.at [] true)
  unfolding read_attached_update_response
  read-encode_response response h =
      read_exact_step d 4 _ attached_update_magic _ true refl
      ∙ ensure_pass (bytes_eq attached_update_magic attached_update_magic) _ _ _
          (bytes_eq_refl attached_update_magic)
      ∙ read_uint_step d 1 2 _ _ true (omega arith)
      ∙ ensure_pass _ _ _ _ refl
      ∙ read_uint_step d 1 (status_code response) _ _ true (code_u8 response)
      ∙ >>=-ok (read_status r (status_code response)) _ _ (
          ap (λ (t : Bytes). read_status r (status_code response) (d.at t true))
            (sym (append-nil (status_body response)))
          ∙ read_status_body response [] true h)
      ∙ frame_end_step d _

  -- What a successful read of a body gives: a response, the rest of the stream, and what follows.
  abbrev Read : {B : Type 0} → ℕ → (AttachedUpdateResponse → Io R B) → Bytes → Bool → B × R → Type 0
  Read status f bs e x =
      (response : AttachedUpdateResponse) × (rest : Bytes) × (bs ≡ status_body response ++ rest)
      × (status ≡ status_code response)
      × ResponseInRange response
      × (f response (d.at rest e) ≡ ok x)

  module _ {B : Type 0} (f : AttachedUpdateResponse → Io R B) (bs : Bytes) (e : Bool) {x : B × R}
      (b : AreBytes bs) where
    read_restarting-eq-ok : (read_restarting r >>= f) (d.at bs e) ≡ ok x → Read 0 f bs e x
    unfolding read_restarting
    read_restarting-eq-ok h =
        let (id, bs₁, s₁, id_len, id_bytes, b₁, h₁) =
          read_exact-eq-ok d 16 _ bs e b (sym (>>=_assoc (r.read_exact 16) _ f (d.at bs e)) ∙ h) in
        let (v, bs₂, s₂, v_ok, b₂, h₂) =
          read_version-eq-ok d _ bs₁ e b₁
            (sym (>>=_assoc (read_attached_version r) _ f (d.at bs₁ e)) ∙ h₁) in
        let (secs, bs₃, s₃, secs_ok, _, h₃) =
          read_uint-eq-ok d 2 _ bs₂ e b₂ (sym (>>=_assoc (read_uint r 2) _ f (d.at bs₂ e)) ∙ h₂) in
        (
          restarting id v secs,
          bs₃,
          split_more _ _ _ s₁ (split_more _ _ _ s₂ s₃),
          refl,
          (record { bytes = id_bytes; len = id_len }, v_ok, secs_ok),
          sym (>>=-ok _ f (d.at bs₃ e) refl) ∙ h₃,
        )

    read_failed-eq-ok : (read_failed r >>= f) (d.at bs e) ≡ ok x → Read 3 f bs e x
    unfolding read_failed
    read_failed-eq-ok h =
        let (len, bs₁, s₁, _, b₁, h₁) =
          read_uint-eq-ok d 2 _ bs e b (sym (>>=_assoc (read_uint r 2) _ f (d.at bs e)) ∙ h) in
        let (short, h₂) =
          ensure-eq-ok (leb len 512) _ _ (d.at bs₁ e) (sym (>>=_assoc _ _ f (d.at bs₁ e)) ∙ h₁) in
        let (message, bs₂, s₂, m_len, m_bytes, _, h₃) =
          read_exact-eq-ok d len _ bs₁ e b₁
            (sym (>>=_assoc (r.read_exact len) _ f (d.at bs₁ e)) ∙ h₂) in
        let (text, h₄) =
          ensure-eq-ok (is_utf8 message) _ _ (d.at bs₂ e)
            (sym (>>=_assoc _ _ f (d.at bs₂ e)) ∙ h₃) in
        (
          failed message,
          bs₂,
          split_more _ _ _ (s₁ ∙ ap (λ (n : ℕ). to_be_bytes 2 n ++ bs₁) (sym m_len)) s₂,
          refl,
          (ground arith, text, m_bytes),
          sym (>>=-ok _ f (d.at bs₂ e) refl) ∙ h₄,
        )

    read_version_arm :
        (make : AttachedVersion → AttachedUpdateResponse)
        → (read_attached_version r >>= (λ v. pure (make v)) >>= f) (d.at bs e) ≡ ok x
        → (v : AttachedVersion) × (rest : Bytes) × (bs ≡ version_bytes v ++ rest)
          × VersionInRange v
          × (f (make v) (d.at rest e) ≡ ok x)
    read_version_arm make h =
        let (v, rest, s, v_ok, _, h₁) =
          read_version-eq-ok d _ bs e b
            (sym (>>=_assoc (read_attached_version r) _ f (d.at bs e)) ∙ h) in
        (v, rest, s, v_ok, sym (>>=-ok _ f (d.at rest e) refl) ∙ h₁)

    read_status-eq-ok :
        (status : ℕ) → (read_status r status >>= f) (d.at bs e) ≡ ok x → Read status f bs e x
    unfolding read_status
    read_status-eq-ok zero h = read_restarting-eq-ok h
    read_status-eq-ok (suc zero) h =
        let (v, rest, s, v_ok, h₁) = read_version_arm committed h in
        (committed v, rest, s, refl, v_ok, h₁)
    read_status-eq-ok (suc (suc zero)) h =
        let (v, rest, s, v_ok, h₁) = read_version_arm current h in
        (current v, rest, s, refl, v_ok, h₁)
    read_status-eq-ok (suc (suc (suc zero))) h = read_failed-eq-ok h
    read_status-eq-ok (suc (suc (suc (suc zero)))) h =
        (busy, bs, refl, refl, tt, sym (>>=-ok _ f (d.at bs e) refl) ∙ h)
    read_status-eq-ok (suc (suc (suc (suc (suc zero))))) h =
        (waiting, bs, refl, refl, tt, sym (>>=-ok _ f (d.at bs e) refl) ∙ h)
    read_status-eq-ok (suc (suc (suc (suc (suc (suc n)))))) h =
        let status = suc (suc (suc (suc (suc (suc n))))) in
        cc (>>=-err (read_status r status) f (d.at bs e) {e = unknown_status status} (ground arith))

  -- What the reader accepts is one whole response, and nothing more.
  pub read_response-eq-ok :
      (bs : Bytes) (e : Bool) {response : AttachedUpdateResponse} {s : R}
      → AreBytes bs
      → read_attached_update_response r (d.at bs e) ≡ ok (response, s)
      → (bs ≡ encode_response response) × (e ≡ true) × ResponseInRange response
  unfolding read_attached_update_response
  read_response-eq-ok bs e {response} b h =
      let (m, bs₁, s₁, _, _, b₁, h₁) = read_exact-eq-ok d 4 _ bs e b h in
      let (m_ok, h₂) = ensure-eq-ok (bytes_eq m attached_update_magic) _ _ _ h₁ in
      let (v, bs₂, s₂, _, b₂, h₃) = read_uint-eq-ok d 1 _ bs₁ e b₁ h₂ in
      let (v_ok, h₄) = ensure-eq-ok (v == attached_update_protocol_version) _ _ _ h₃ in
      let (status, bs₃, s₃, _, b₃, h₅) = read_uint-eq-ok d 1 _ bs₂ e b₂ h₄ in
      let (response', rest, s₄, code, valid, h₆) = read_status-eq-ok _ bs₃ e b₃ status h₅ in
      let (nothing, ended, h₇) = frame_end-eq-ok d _ rest e h₆ in
      let (returned, last) = pure-eq-ok response' response h₇ in
      let body : bs₃ ≡ status_body response =
        s₄
        ∙ ap (λ (t : Bytes). status_body response' ++ t) nothing
        ∙ append-nil (status_body response')
        ∙ ap status_body returned in
      (
        join_parts _ _ _ _ s₁ ((bytes_eq_iff m attached_update_magic).0 m_ok) (
            join_parts _ _ _ _ s₂
              (ap (to_be_bytes 1) (==→eq v attached_update_protocol_version v_ok))
              (join_parts _ _ _ _ s₃ (ap (to_be_bytes 1) (code ∙ ap status_code returned)) body)),
        ended,
        subst ResponseInRange returned valid,
      )

  -- On a stream that delivers `bs`, the reader returns a response exactly when the stream holds
  -- that response, byte for byte, and then ends.
  pub read_response_iff :
      (bs : Bytes) (e : Bool) (response : AttachedUpdateResponse)
      → AreBytes bs
      → (read_attached_update_response r (d.at bs e) ≡ ok (response, d.at [] true))
        ↔ ((bs ≡ encode_response response) × (e ≡ true) × ResponseInRange response)
  read_response_iff bs e response b =
      (λ h. read_response-eq-ok bs e b h, λ k. rw (k.0, k.1) (read-encode_response response k.2))

module _ {R W : Type 0} {r : AsyncRead R} {w : AsyncWrite W} (d : Delivers r) (a : Accepts w) where
  -- What the writer of a response sends the reader takes, and it returns the response.
  pub response_roundtrip :
      (response : AttachedUpdateResponse)
      → ResponseInRange response
      → (sent : Bytes) × (write_attached_update_response w response (a.sent [] false)
          ≡ ok (tt, a.sent sent true))
        × (read_attached_update_response r (d.at sent true) ≡ ok (response, d.at [] true))
  response_roundtrip response h = (
    encode_response response,
    write_response-encode_response a response [] h,
    read-encode_response d response h,
  )
