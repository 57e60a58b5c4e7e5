-- ===== src/Tunnel/Forward.antt =====
-- crates/tunnel-protocol/src/tcp_forward.rs: the setup message of a TCP forwarding connection, and
-- the open marker and status byte in front of the bytes of each forwarded stream.
pub mod Framing
use attached.Action.{◌>>=◌, ◌>>◌, pure, bail, ensure}
use attached.Common.{ℕ, ◌==◌, not, if◌then◌else◌, bytes_eq, ◌++◌, Bytes, to_be_bytes}
use attached.Stream.{
  authentication_denied, zero_port, unknown_status, invalid_open_marker, Io, AsyncRead, AsyncWrite,
  read_uint, write_uint,
}
use attached.Tunnel.Wire.{CapabilitySecret, ensure_frame_end}

pub data TcpForwardStatus : Type 0 where
  ready connection_failed : TcpForwardStatus

module _ {W : Type 0} (w : AsyncWrite W) where
  unfoldable pub write_tcp_forward_request : CapabilitySecret → ℕ → Io W (Unit {0})
  write_tcp_forward_request capability remote_port = do
    ensure (not (remote_port == 0)) zero_port
    w.write_all capability
    write_uint w 2 remote_port
    w.shutdown

  unfoldable pub write_tcp_forward_status : TcpForwardStatus → Io W (Unit {0})
  write_tcp_forward_status status = do
    write_uint w 1 (elim status [ ready ↦ 0 | connection_failed ↦ 1 ])
    w.flush

  unfoldable pub write_tcp_forward_open : Io W (Unit {0})
  write_tcp_forward_open = do write_uint w 1 0; w.flush

module _ {R : Type 0} (r : AsyncRead R) where
  unfoldable pub read_tcp_forward_request : CapabilitySecret → Io R ℕ
  read_tcp_forward_request expected = do
    supplied ← r.read_exact 32
    ensure (bytes_eq expected supplied) authentication_denied
    port ← read_uint r 2
    ensure (not (port == 0)) zero_port
    ensure_frame_end r
    pure port

  -- The `match` on the status byte.
  unfoldable pub status_of_byte : ℕ → Io R TcpForwardStatus
  status_of_byte status =
      if status == 0
      then pure ready
      else if status == 1
      then pure connection_failed
      else bail (unknown_status status)

  unfoldable pub read_tcp_forward_status : Io R TcpForwardStatus
  read_tcp_forward_status = do status ← read_uint r 1; status_of_byte status

  unfoldable pub read_tcp_forward_open : Io R (Unit {0})
  read_tcp_forward_open = do marker ← read_uint r 1; ensure (marker == 0) invalid_open_marker

abbrev pub encode_forward : CapabilitySecret → ℕ → Bytes
encode_forward capability port = capability ++ to_be_bytes 2 port
