-- ===== src/Protocol/Tests.antt =====
-- Concrete runs of the protocol's definitions, and its theorems at concrete inputs.
mod Routes
mod Contracts
mod Digests
