-- ===== src/Herdr.antt =====
-- crates/herdr-plugin: the hosts that are discovered and the machines that are kept for them.
pub mod Hosts
pub mod Discovery
pub mod Polling
mod Examples
