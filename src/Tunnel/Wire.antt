-- ===== src/Tunnel/Wire.antt =====
-- crates/tunnel-protocol/src/lib.rs: the data of the messages, and the pieces of a frame.
pub mod Steps
use attached.Action.{◌>>=◌, ◌>>◌, pure, bail, ensure}
use attached.Common.{
  ℕ, ◌^◌, ◌<◌, ◌≡◌, Bool, true, false, [], ◌∷◌, ◌++◌, length, Bytes, AreBytes, to_be_bytes,
}
use attached.Stream.{Error, trailing_bytes, Io, AsyncRead, AsyncWrite, read_uint, write_uint}

-- `b"ATUP"`
abbrev pub attached_update_magic : Bytes
attached_update_magic = b'A' ∷ b'T' ∷ b'U' ∷ b'P' ∷ []

abbrev pub attached_update_protocol_version : ℕ
attached_update_protocol_version = 2

abbrev pub max_attached_update_message_len : ℕ
max_attached_update_message_len = 512

abbrev pub update_operation_id_bytes : ℕ
update_operation_id_bytes = 16

pub record AttachedVersion : Type 0 where
  pub major : ℕ
  pub minor : ℕ
  pub patch : ℕ

-- The types that the fields have in Rust: `u32`, and byte arrays of fixed length.
pub record VersionInRange (v : AttachedVersion) : Type 0 where
  pub major_u32 : v.major < 256 ^ 4
  pub minor_u32 : v.minor < 256 ^ 4
  pub patch_u32 : v.patch < 256 ^ 4

pub record IsArray (n : ℕ) (bs : Bytes) : Type 0 where
  pub bytes : AreBytes bs
  pub len : length bs ≡ n

abbrev pub UpdateOperationId : Type 0
UpdateOperationId = Bytes

abbrev pub CapabilitySecret : Type 0
CapabilitySecret = Bytes

module _ {W : Type 0} (w : AsyncWrite W) where
  unfoldable pub write_attached_version : AttachedVersion → Io W (Unit {0})
  write_attached_version v = do
    write_uint w 4 v.major
    write_uint w 4 v.minor
    write_uint w 4 v.patch

module _ {R : Type 0} (r : AsyncRead R) where
  unfoldable pub read_attached_version : Io R AttachedVersion
  read_attached_version = do
    major ← read_uint r 4
    minor ← read_uint r 4
    patch ← read_uint r 4
    pure (record { major = major; minor = minor; patch = patch })

  -- Whether `reader.read(&mut trailing)` returned 0.
  abbrev pub is_end : Bytes → Bool
  is_end [] = true
  is_end (b ∷ bs) = false

  unfoldable pub ensure_frame_end : Io R (Unit {0})
  ensure_frame_end = do trailing ← r.read 1; ensure (is_end trailing) trailing_bytes

-- The bytes of a version.
abbrev pub version_bytes : AttachedVersion → Bytes
version_bytes v = to_be_bytes 4 v.major ++ (to_be_bytes 4 v.minor ++ to_be_bytes 4 v.patch)
