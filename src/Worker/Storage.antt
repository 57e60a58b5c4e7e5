-- ===== src/Worker/Storage.antt =====
-- crates/session-sync-worker/src/storage.rs: the account and its records in SQL tables.
pub mod Sql
pub mod Rows
pub mod Session
pub mod Keys
pub mod Operations
pub mod Reading
pub mod Keeping
pub mod Index
pub mod Writing
pub mod Runs
pub mod Initial
pub mod Small
mod Examples
