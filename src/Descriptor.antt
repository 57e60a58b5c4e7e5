-- ===== src/Descriptor.antt =====
-- crates/session-sync-protocol/src/canonical.rs: host access descriptors, what a publisher tells
-- its account about itself.
pub mod Cbor
pub mod Outside
pub mod Model
pub mod Decoding
pub mod Validity
pub mod Steps
pub mod Layout
pub mod RoundTrip
pub mod Agreement
pub mod Small
mod Examples
