-- ===== src/Tunnel/Request.antt =====
-- crates/tunnel-protocol/src/lib.rs: the request of a self-update handoff. `encode_request` is an
-- independent description of its bytes.
pub mod Framing
use attached.Action.{◌>>=◌, ◌>>◌, pure, bail, ensure}
use attached.Common.{ℕ, ◌==◌, if◌then◌else◌, bytes_eq, [], ◌++◌, Bytes, to_be_bytes}
use attached.Stream.{
  invalid_magic, unsupported_version, authentication_denied, unknown_operation, Io, AsyncRead,
  AsyncWrite, read_uint, write_uint,
}
use attached.Tunnel.Wire.{
  attached_update_magic, attached_update_protocol_version, update_operation_id_bytes,
  AttachedVersion, VersionInRange, IsArray, UpdateOperationId, CapabilitySecret,
  write_attached_version, read_attached_version, ensure_frame_end, version_bytes,
}

pub data AttachedUpdateRequest : Type 0 where
  start : AttachedUpdateRequest
  confirm : UpdateOperationId → AttachedVersion → AttachedUpdateRequest

module _ {W : Type 0} (w : AsyncWrite W) where
  unfoldable pub write_attached_update_request_prefix : ℕ → CapabilitySecret → Io W (Unit {0})
  write_attached_update_request_prefix operation secret = do
    w.write_all attached_update_magic
    write_uint w 1 attached_update_protocol_version
    write_uint w 1 operation
    w.write_all secret

  unfoldable pub write_attached_update_start_request : CapabilitySecret → Io W (Unit {0})
  write_attached_update_start_request secret = do
    write_attached_update_request_prefix 0 secret
    w.shutdown

  unfoldable pub write_attached_update_confirm_request :
      CapabilitySecret → UpdateOperationId → AttachedVersion → Io W (Unit {0})
  write_attached_update_confirm_request secret operation_id observed_version = do
    write_attached_update_request_prefix 1 secret
    w.write_all operation_id
    write_attached_version w observed_version
    w.shutdown

module _ {R : Type 0} (r : AsyncRead R) where
  -- The `match operation` of the reader.
  unfoldable pub read_operation : ℕ → Io R AttachedUpdateRequest
  read_operation operation =
      if operation == 0
      then pure start
      else if operation == 1
      then (do
        operation_id ← r.read_exact update_operation_id_bytes
        observed_version ← read_attached_version r
        pure (confirm operation_id observed_version))
      else bail (unknown_operation operation)

  unfoldable pub read_attached_update_request : CapabilitySecret → Io R AttachedUpdateRequest
  read_attached_update_request expected_secret = do
    magic ← r.read_exact 4
    ensure (bytes_eq magic attached_update_magic) invalid_magic
    version ← read_uint r 1
    ensure (version == attached_update_protocol_version) unsupported_version
    operation ← read_uint r 1
    supplied ← r.read_exact 32
    ensure (bytes_eq expected_secret supplied) authentication_denied
    request ← read_operation operation
    ensure_frame_end r
    pure request

abbrev pub operation_code : AttachedUpdateRequest → ℕ
operation_code start = 0
operation_code (confirm _ _) = 1

abbrev pub operation_body : AttachedUpdateRequest → Bytes
operation_body start = []
operation_body (confirm id v) = id ++ version_bytes v

abbrev pub encode_request : CapabilitySecret → AttachedUpdateRequest → Bytes
encode_request secret request =
    attached_update_magic
    ++ (to_be_bytes 1 attached_update_protocol_version
        ++ (to_be_bytes 1 (operation_code request) ++ (secret ++ operation_body request)))

-- The fields of a request have the types that they have in Rust.
abbrev pub RequestInRange : AttachedUpdateRequest → Type 0
RequestInRange start = Unit
RequestInRange (confirm id v) = IsArray update_operation_id_bytes id × VersionInRange v

-- Which of the two writers sends a request.
abbrev pub write_request :
    {W : Type 0} → AsyncWrite W → CapabilitySecret → AttachedUpdateRequest → Io W (Unit {0})
write_request w secret start = write_attached_update_start_request w secret
write_request w secret (confirm id v) = write_attached_update_confirm_request w secret id v
