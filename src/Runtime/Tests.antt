-- ===== src/Runtime/Tests.antt =====
-- Concrete runs of the runtime service, and its theorems at concrete inputs.
mod Codec
mod Histories
mod Listings
mod Runs
mod Threads
mod Queries
mod Services
mod Invocations
