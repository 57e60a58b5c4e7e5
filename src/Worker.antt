-- ===== src/Worker.antt =====
-- crates/session-sync-worker: what the synchronization service stores for an account.
pub mod Account
pub mod Records
pub mod Handlers
pub mod Creation
pub mod Forward
pub mod Http
pub mod Storage
