-- ===== src/Supervisor.antt =====
-- The supervisor side: the restart budget and the observe-only latches of seats.
pub mod Restart
pub mod Budget
pub mod Latched
mod Tests
