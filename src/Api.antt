-- ===== src/Api.antt =====
-- crates/session-sync-protocol/src/api.rs: what travels between the synchronization service and its
-- clients.
pub mod Envelope
pub mod Wire
pub mod Sequence
mod Examples
