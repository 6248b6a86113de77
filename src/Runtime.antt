-- ===== src/Runtime.antt =====
-- The runtime service (_lib/proj/_app/src/runtime_service and run_journal).
pub mod Journal
pub mod Run
pub mod History
pub mod Control
pub mod Query
pub mod Registry
pub mod Invocation
mod Tests
