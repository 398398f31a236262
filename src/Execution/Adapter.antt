-- ===== src/Execution/Adapter.antt =====
-- The paper adapter of src/pumpgrok/execution/paper_adapter: the stages of an order. A stage is a
-- function of what it reads; the ledger rows of a placement are its result.
pub mod Model
pub mod Confirm
pub mod Buy
pub mod Sell
pub mod Bought
pub mod Sold
pub mod Books
pub mod Rows
pub mod Settled
pub mod Exited
pub mod Quiet
pub mod Day
pub mod Refuses
pub mod Refused
mod Tests
