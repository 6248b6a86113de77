-- ===== src/Protocol.antt =====
-- The wire protocol crate (_lib/proj/_protocol).
pub mod Error
pub mod Name
pub mod Route
pub mod Identity
pub mod Capability
pub mod Contract
pub mod Digest
mod Tests
