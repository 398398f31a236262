-- ===== src/Risk.antt =====
-- The risk side: breakers and the engine's step walk.
pub mod Breaker
pub mod KillSwitch
pub mod Domain
pub mod Rebuild
pub mod Engine
pub mod Claim
mod BreakerTests
pub mod EngineTests
mod ClaimTests
mod DeskTests
