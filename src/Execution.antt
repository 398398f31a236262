-- ===== src/Execution.antt =====
-- The paper execution: bonding-curve arithmetic, fees, and the adapter's orders.
pub mod Curve
pub mod Fees
pub mod RoundTrip
pub mod Adapter
pub mod Orders
mod Tests
