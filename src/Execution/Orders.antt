-- ===== src/Execution/Orders.antt =====
-- An order from its request to its outcome on the ledger: `PaperAdapter.place` of
-- src/pumpgrok/execution/paper_adapter, over the stages of Execution/Adapter.
pub mod Journal
pub mod Batch
pub mod Sizing
pub mod Place
pub mod Keys
pub mod Sent
pub mod Settled
pub mod Fills
pub mod OnLedger
pub mod Repeat
pub mod Unique
pub mod Segments
pub mod Single
pub mod Spent
pub mod Gated
pub mod Calls
pub mod Drain
mod Tests
mod SendTests
mod GatedTests
