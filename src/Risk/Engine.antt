-- ===== src/Risk/Engine.antt =====
-- The risk engine of src/pumpgrok/risk/engine: the step walk (steps.py, rules.py, model.py,
-- constants.py), and what core.py does round it.
pub mod Vocabulary
pub mod Model
pub mod Approvals
pub mod Limits
pub mod Walk
pub mod Context
pub mod Exits
pub mod Inversion
pub mod Gates
pub mod Early
pub mod Sizing
pub mod Exposure
pub mod Decide
pub mod Journal
pub mod Consumed
pub mod Flatten
pub mod Planned
pub mod HaltClear
pub mod Cache
