-- ===== src/Catalog.antt =====
-- crates/cli/src/sync/state_catalog.rs and refresh.rs: the catalog of synchronized hosts.
pub mod Model
pub mod Validity
pub mod Merge
pub mod Lookup
pub mod Fetch
pub mod Refresh
pub mod Store
pub mod Examples
