-- ===== src/Tunnel/Request/Framing.antt =====
-- crates/tunnel-protocol/src/lib.rs: the reader accepts exactly what the writers send.
use attached.Action.Steps.{
  pure-eq-ok, ensure-eq-ok, >>=-ok, >>=-err, >>=_assoc, ensure_pass, ensure_fail,
}
use attached.Action.{◌>>◌, ◌>>=◌, pure, ensure}
use attached.Tunnel.Wire.{ensure_frame_end}
use attached.Stream.{unknown_operation}
use mathlib.Core.Path.{subst}
use attached.Common.{
  ◌↔◌, ==→eq, ◌==◌, join_parts, zero, split_more, bytes_eq_iff, ℕ, suc, ◌<◌, bytes_eq, bytes_eq_iff,
  bytes_eq_refl, Bool, true, false, [], ◌++◌, ◌≡◌, ◌≢◌, refl, sym, ap, ◌∙◌, length, ok, err, Bytes,
  AreBytes, to_be_bytes, arith, append_assoc, append-nil, split_more,
}
use attached.Stream.{authentication_denied, Io, AsyncRead, AsyncWrite, Delivers, Accepts}
use attached.Stream.Steps.{
  read_uint-eq-ok, read_exact_step, read_uint_step, read_exact-eq-ok, write_all_step,
  write_uint_step,
}
use attached.Tunnel.Wire.{
  attached_update_magic, attached_update_protocol_version, CapabilitySecret, read_attached_version,
  version_bytes,
}
use attached.Tunnel.Wire.Steps.{
  frame_end-eq-ok, write_version_step, read_version_step, read_version-eq-ok, frame_end_step,
}
use attached.Tunnel.Request.{
  AttachedUpdateRequest, start, confirm, write_attached_update_request_prefix,
  write_attached_update_start_request, write_attached_update_confirm_request, read_operation,
  read_attached_update_request, operation_code, operation_body, encode_request, RequestInRange,
  write_request,
}

abbrev pub prefix : ℕ → CapabilitySecret → Bytes
prefix operation secret =
    attached_update_magic
    ++ (to_be_bytes 1 attached_update_protocol_version ++ (to_be_bytes 1 operation ++ secret))

prefix_append :
    (operation : ℕ) (secret rest : Bytes)
    → prefix operation secret ++ rest
      ≡ attached_update_magic
        ++ (to_be_bytes 1 attached_update_protocol_version
            ++ (to_be_bytes 1 operation ++ (secret ++ rest)))
prefix_append operation secret rest = simp append_assoc

code_u8 : (request : AttachedUpdateRequest) → operation_code request < 256
code_u8 start = omega arith
code_u8 (confirm _ _) = omega arith

module _ {W : Type 0} {w : AsyncWrite W} (a : Accepts w) where
  prefix_step :
      {B : Type 0} (operation : ℕ) (secret out : Bytes) (f : Unit {0} → Io W B)
      → (write_attached_update_request_prefix w operation secret >>= f) (a.sent out false)
        ≡ f tt (a.sent (out ++ prefix operation secret) false)
  unfolding write_attached_update_request_prefix
  prefix_step operation secret out f =
      >>=-ok (write_attached_update_request_prefix w operation secret) f _ (
        write_all_step a attached_update_magic out _
        ∙ write_uint_step a 1 attached_update_protocol_version _ _
        ∙ write_uint_step a 1 operation _ _
        ∙ a.write_all_open _ secret
        ∙ simp append_assoc)

  -- A writer appends exactly the bytes of the request, and then ends the stream.
  pub write_request-encode_request :
      (secret : CapabilitySecret) (request : AttachedUpdateRequest) (out : Bytes)
      → write_request w secret request (a.sent out false)
        ≡ ok (tt, a.sent (out ++ encode_request secret request) true)
  unfolding write_attached_update_start_request write_attached_update_confirm_request
  write_request-encode_request secret start out =
      prefix_step 0 secret out _ ∙ a.shutdown_open _ ∙ simp append-nil
  write_request-encode_request secret (confirm id v) out =
      prefix_step 1 secret out _
      ∙ write_all_step a id _ _
      ∙ write_version_step a v _ _
      ∙ a.shutdown_open _
      ∙ simp append_assoc

module _ {R : Type 0} {r : AsyncRead R} (d : Delivers r) where
  read_operation_step :
      (request : AttachedUpdateRequest)
      → RequestInRange request
      → {B : Type 0} (f : AttachedUpdateRequest → Io R B)
      → (read_operation r (operation_code request) >>= f) (d.at (operation_body request) true)
        ≡ f request (d.at [] true)
  unfolding read_operation
  read_operation_step start h f = >>=-ok (read_operation r 0) f _ refl
  read_operation_step (confirm id v) h f = >>=-ok (read_operation r 1) f _ (
      read_exact_step d 16 _ id _ true h.0.len
      ∙ ap (λ (t : Bytes). (read_attached_version r >>= λ v'. pure (confirm id v')) (d.at t true))
          (sym (append-nil (version_bytes v)))
      ∙ read_version_step d v _ [] true h.1)

  -- What the reader does once it has the operation and the secret.
  abbrev after_secret : CapabilitySecret → ℕ → CapabilitySecret → Io R AttachedUpdateRequest
  after_secret expected operation supplied = do
    ensure (bytes_eq expected supplied) authentication_denied
    request ← read_operation r operation
    ensure_frame_end r
    pure request

  read_prefix :
      (expected supplied : CapabilitySecret) (operation : ℕ) (rest : Bytes) (e : Bool)
      → length supplied ≡ 32
      → operation < 256
      → read_attached_update_request r expected (d.at (prefix operation supplied ++ rest) e)
        ≡ after_secret expected operation supplied (d.at rest e)
  unfolding read_attached_update_request
  read_prefix expected supplied operation rest e n u =
      ap (λ (t : Bytes). read_attached_update_request r expected (d.at t e))
        (prefix_append operation supplied rest)
      ∙ read_exact_step d 4 _ attached_update_magic _ e refl
      ∙ ensure_pass (bytes_eq attached_update_magic attached_update_magic) _ _ _
          (bytes_eq_refl attached_update_magic)
      ∙ read_uint_step d 1 2 _ _ e (omega arith)
      ∙ ensure_pass _ _ _ _ refl
      ∙ read_uint_step d 1 operation _ _ e u
      ∙ read_exact_step d 32 _ supplied rest e n

  -- The reader returns the request that was sent with the expected secret.
  pub read-encode_request :
      (secret : CapabilitySecret) (request : AttachedUpdateRequest)
      → length secret ≡ 32
      → RequestInRange request
      → read_attached_update_request r secret (d.at (encode_request secret request) true)
        ≡ ok (request, d.at [] true)
  read-encode_request secret request n h =
      ap (λ (t : Bytes). read_attached_update_request r secret (d.at t true))
        (sym (prefix_append (operation_code request) secret (operation_body request)))
      ∙ read_prefix secret secret (operation_code request) _ true n (code_u8 request)
      ∙ ensure_pass (bytes_eq secret secret) _ _ _ (bytes_eq_refl secret)
      ∙ read_operation_step request h _
      ∙ frame_end_step d _

  -- A message with another secret is refused, whatever the rest of it says.
  pub read_request_denied :
      (expected supplied : CapabilitySecret) (operation : ℕ) (rest : Bytes) (e : Bool)
      → length supplied ≡ 32
      → operation < 256
      → expected ≢ supplied
      → read_attached_update_request r expected (d.at (prefix operation supplied ++ rest) e)
        ≡ err authentication_denied
  read_request_denied expected supplied operation rest e n u ne =
      read_prefix expected supplied operation rest e n u
      ∙ ensure_fail _ _ _ _ (ground (arith, bytes_eq_iff expected supplied))

  read_operation-eq-ok :
      (operation : ℕ) {B : Type 0} (f : AttachedUpdateRequest → Io R B) (bs : Bytes) (e : Bool)
      {x : B × R}
      → AreBytes bs
      → (read_operation r operation >>= f) (d.at bs e) ≡ ok x
      → (request : AttachedUpdateRequest) × (rest : Bytes) × (bs ≡ operation_body request ++ rest)
        × (operation ≡ operation_code request)
        × RequestInRange request
        × (f request (d.at rest e) ≡ ok x)
  unfolding read_operation
  read_operation-eq-ok zero f bs e b h =
      (start, bs, refl, refl, tt, sym (>>=-ok _ f (d.at bs e) refl) ∙ h)
  read_operation-eq-ok (suc zero) f bs e b h =
      let (id, bs₁, s₁, id_len, id_bytes, b₁, h₁) =
        read_exact-eq-ok d 16 _ bs e b (sym (>>=_assoc (r.read_exact 16) _ f (d.at bs e)) ∙ h) in
      let (v, bs₂, s₂, v_ok, b₂, h₂) =
        read_version-eq-ok d _ bs₁ e b₁
          (sym (>>=_assoc (read_attached_version r) _ f (d.at bs₁ e)) ∙ h₁) in
      (
        confirm id v,
        bs₂,
        split_more _ _ _ s₁ s₂,
        refl,
        (record { bytes = id_bytes; len = id_len }, v_ok),
        sym (>>=-ok _ f (d.at bs₂ e) refl) ∙ h₂,
      )
  read_operation-eq-ok (suc (suc n)) f bs e b h = cc (
      >>=-err (read_operation r (suc (suc n))) f (d.at bs e) {e = unknown_operation (suc (suc n))}
        (ground arith))

  after_secret-eq-ok :
      (expected supplied : CapabilitySecret) (operation : ℕ) (bs : Bytes) (e : Bool)
      {request : AttachedUpdateRequest} {s : R}
      → AreBytes bs
      → after_secret expected operation supplied (d.at bs e) ≡ ok (request, s)
      → (supplied ≡ expected)
        × (bs ≡ operation_body request)
        × (operation ≡ operation_code request)
        × RequestInRange request
        × (e ≡ true)
        × (s ≡ d.at [] true)
  after_secret-eq-ok expected supplied operation bs e {request} b h =
      let (same, h₁) = ensure-eq-ok (bytes_eq expected supplied) _ _ (d.at bs e) h in
      let (request', rest, split, code, valid, h₂) = read_operation-eq-ok operation _ bs e b h₁ in
      let (nothing, ended, h₃) = frame_end-eq-ok d _ rest e h₂ in
      let (returned, last) = pure-eq-ok request' request h₃ in
      (
        sym ((bytes_eq_iff expected supplied).0 same),
        split
            ∙ ap (λ (t : Bytes). operation_body request' ++ t) nothing
            ∙ append-nil (operation_body request')
            ∙ ap operation_body returned,
        code ∙ ap operation_code returned,
        subst RequestInRange returned valid,
        ended,
        sym last,
      )

  -- What the reader accepts is a whole message with the expected secret, and nothing more.
  pub read_request-eq-ok :
      (expected : CapabilitySecret) (bs : Bytes) (e : Bool) {request : AttachedUpdateRequest}
      {s : R}
      → AreBytes bs
      → read_attached_update_request r expected (d.at bs e) ≡ ok (request, s)
      → (bs ≡ encode_request expected request)
        × (e ≡ true)
        × RequestInRange request
        × (length expected ≡ 32)
  unfolding read_attached_update_request
  read_request-eq-ok expected bs e b h =
      let (m, bs₁, s₁, _, _, b₁, h₁) = read_exact-eq-ok d 4 _ bs e b h in
      let (m_ok, h₂) = ensure-eq-ok (bytes_eq m attached_update_magic) _ _ _ h₁ in
      let (v, bs₂, s₂, _, b₂, h₃) = read_uint-eq-ok d 1 _ bs₁ e b₁ h₂ in
      let (v_ok, h₄) = ensure-eq-ok (v == attached_update_protocol_version) _ _ _ h₃ in
      let (operation, bs₃, s₃, _, b₃, h₅) = read_uint-eq-ok d 1 _ bs₂ e b₂ h₄ in
      let (supplied, bs₄, s₄, n, _, b₄, h₆) = read_exact-eq-ok d 32 _ bs₃ e b₃ h₅ in
      let (same, body, code, valid, ended, _) =
        after_secret-eq-ok expected supplied operation bs₄ e b₄ h₆ in
      (
        join_parts _ _ _ _ s₁ ((bytes_eq_iff m attached_update_magic).0 m_ok) (
            join_parts _ _ _ _ s₂
              (ap (to_be_bytes 1) (==→eq v attached_update_protocol_version v_ok))
              (join_parts _ _ _ _ s₃ (ap (to_be_bytes 1) code) (join_parts _ _ _ _ s₄ same body))),
        ended,
        valid,
        ap length (sym same) ∙ n,
      )

  -- On a stream that delivers `bs`, the reader returns a request exactly when the stream holds
  -- that request with the expected secret, byte for byte, and then ends.
  pub read_request_iff :
      (expected : CapabilitySecret) (bs : Bytes) (e : Bool) (request : AttachedUpdateRequest)
      → AreBytes bs
      → length expected ≡ 32
      → (read_attached_update_request r expected (d.at bs e) ≡ ok (request, d.at [] true))
        ↔ ((bs ≡ encode_request expected request) × (e ≡ true) × RequestInRange request)
  read_request_iff expected bs e request b n = (
    λ h.
        let (whole, ended, valid, _) = read_request-eq-ok expected bs e b h in
        (whole, ended, valid),
    λ k. rw (k.0, k.1) (read-encode_request expected request n k.2),
  )

module _ {R W : Type 0} {r : AsyncRead R} {w : AsyncWrite W} (d : Delivers r) (a : Accepts w) where
  -- What the writer of a request sends, with a secret of 32 bytes, the reader that expects this
  -- secret takes, and it returns the request.
  pub request_roundtrip :
      (secret : CapabilitySecret) (request : AttachedUpdateRequest)
      → length secret ≡ 32
      → RequestInRange request
      → (sent : Bytes) × (write_request w secret request (a.sent [] false)
          ≡ ok (tt, a.sent sent true))
        × (read_attached_update_request r secret (d.at sent true) ≡ ok (request, d.at [] true))
  request_roundtrip secret request n h = (
    encode_request secret request,
    write_request-encode_request a secret request [],
    read-encode_request d secret request n h,
  )
