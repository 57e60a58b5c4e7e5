-- ===== src/Tunnel.antt =====
-- crates/tunnel-protocol/src/lib.rs: the messages of an Attached self-update handoff. A message is
-- written to and read from a stream of its own, which ends with it. Forward has tcp_forward.rs.
pub mod Wire
pub mod Request
pub mod Response
pub mod Forward
mod Examples
