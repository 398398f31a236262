-- ===== src/Risk/KillSwitch.antt =====
-- The kill switch of src/pumpgrok/risk/killswitch.py: its sources, the alert commands, and the rows
-- that it writes.
pub mod Model
pub mod Alerts
pub mod Poll
pub mod Clear
pub mod FailClosed
pub mod Absorb
pub mod Cleared
pub mod Latch
pub mod Epochs
pub mod Restart
mod Tests
