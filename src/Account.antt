-- ===== src/Account.antt =====
-- crates/session-sync-protocol/src/account.rs: the credentials of an account.
pub mod Bundles
pub mod Tokens
