-- ===== src/Tunnel/Response.antt =====
-- crates/tunnel-protocol/src/lib.rs: the response of a self-update handoff. `encode_response` is
-- an independent description of its bytes.
pub mod Framing
use attached.Action.{◌>>=◌, ◌>>◌, pure, bail, ensure}
use attached.Common.{
  ℕ, ◌^◌, ◌<◌, ◌≤◌, ◌≡◌, Bool, true, ◌==◌, leb, if◌then◌else◌, bytes_eq, is_utf8, [], ◌++◌, length,
  Bytes, AreBytes, to_be_bytes,
}
use attached.Stream.{
  invalid_magic, unsupported_version, too_long, not_utf8, unknown_status, Io, AsyncRead, AsyncWrite,
  read_uint, write_uint,
}
use attached.Tunnel.Wire.{
  attached_update_magic, attached_update_protocol_version, update_operation_id_bytes,
  max_attached_update_message_len, AttachedVersion, VersionInRange, IsArray, UpdateOperationId,
  write_attached_version, read_attached_version, ensure_frame_end, version_bytes,
}

pub data AttachedUpdateResponse : Type 0 where
  restarting : UpdateOperationId → AttachedVersion → ℕ → AttachedUpdateResponse
  committed current : AttachedVersion → AttachedUpdateResponse
  failed : Bytes → AttachedUpdateResponse
  busy waiting : AttachedUpdateResponse

module _ {W : Type 0} (w : AsyncWrite W) where
  -- The `match response` of the writer.
  unfoldable pub write_response_body : AttachedUpdateResponse → Io W (Unit {0})
  write_response_body (restarting operation_id version reconnect_timeout_secs) = do
    write_uint w 1 0
    w.write_all operation_id
    write_attached_version w version
    write_uint w 2 reconnect_timeout_secs
  write_response_body (committed version) = do write_uint w 1 1; write_attached_version w version
  write_response_body (current version) = do write_uint w 1 2; write_attached_version w version
  write_response_body (failed message) = do
    ensure (leb (length message) max_attached_update_message_len) too_long
    write_uint w 1 3
    write_uint w 2 (length message)
    w.write_all message
  write_response_body busy = write_uint w 1 4
  write_response_body waiting = write_uint w 1 5

  unfoldable pub write_attached_update_response : AttachedUpdateResponse → Io W (Unit {0})
  write_attached_update_response response = do
    w.write_all attached_update_magic
    write_uint w 1 attached_update_protocol_version
    write_response_body response
    w.shutdown

module _ {R : Type 0} (r : AsyncRead R) where
  -- The arm of status 3.
  unfoldable pub read_failed : Io R AttachedUpdateResponse
  read_failed = do
    len ← read_uint r 2
    ensure (leb len max_attached_update_message_len) too_long
    message ← r.read_exact len
    ensure (is_utf8 message) not_utf8
    pure (failed message)

  unfoldable pub read_restarting : Io R AttachedUpdateResponse
  read_restarting = do
    operation_id ← r.read_exact update_operation_id_bytes
    version ← read_attached_version r
    reconnect_timeout_secs ← read_uint r 2
    pure (restarting operation_id version reconnect_timeout_secs)

  -- The `match` on the status byte.
  unfoldable pub read_status : ℕ → Io R AttachedUpdateResponse
  read_status status =
      if status == 0
      then read_restarting
      else if status == 1
      then (do version ← read_attached_version r; pure (committed version))
      else if status == 2
      then (do version ← read_attached_version r; pure (current version))
      else if status == 3
      then read_failed
      else if status == 4
      then pure busy
      else if status == 5
      then pure waiting
      else bail (unknown_status status)

  unfoldable pub read_attached_update_response : Io R AttachedUpdateResponse
  read_attached_update_response = do
    magic ← r.read_exact 4
    ensure (bytes_eq magic attached_update_magic) invalid_magic
    version ← read_uint r 1
    ensure (version == attached_update_protocol_version) unsupported_version
    status ← read_uint r 1
    response ← read_status status
    ensure_frame_end r
    pure response

abbrev pub status_code : AttachedUpdateResponse → ℕ
status_code (restarting _ _ _) = 0
status_code (committed _) = 1
status_code (current _) = 2
status_code (failed _) = 3
status_code busy = 4
status_code waiting = 5

abbrev pub status_body : AttachedUpdateResponse → Bytes
status_body (restarting id v secs) = id ++ (version_bytes v ++ to_be_bytes 2 secs)
status_body (committed v) = version_bytes v
status_body (current v) = version_bytes v
status_body (failed message) = to_be_bytes 2 (length message) ++ message
status_body busy = []
status_body waiting = []

abbrev pub encode_response : AttachedUpdateResponse → Bytes
encode_response response =
    attached_update_magic
    ++ (to_be_bytes 1 attached_update_protocol_version
        ++ (to_be_bytes 1 (status_code response) ++ status_body response))

-- The fields of a response have the types that they have in Rust, and a message is not too long.
abbrev pub ResponseInRange : AttachedUpdateResponse → Type 0
ResponseInRange (restarting id v secs) =
    IsArray update_operation_id_bytes id × VersionInRange v × (secs < 256 ^ 2)
ResponseInRange (committed v) = VersionInRange v
ResponseInRange (current v) = VersionInRange v
ResponseInRange (failed message) =
    (length message ≤ max_attached_update_message_len) × (is_utf8 message ≡ true) × AreBytes message
ResponseInRange busy = Unit
ResponseInRange waiting = Unit
