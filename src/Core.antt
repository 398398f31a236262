-- ===== src/Core.antt =====
-- The desk's core contracts: orders, approvals, canonical JSON and idempotency keys.
pub mod Order
pub mod Approval
pub mod Json
pub mod Idempotency
pub mod Canonical
mod Tests
