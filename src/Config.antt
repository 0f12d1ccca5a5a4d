-- ===== src/Config.antt =====
-- The `config` layer of the crate: src/config.
pub mod Phase
pub mod Pipeline
pub mod Spec
pub mod Checks
pub mod Conditions
pub mod WellFormed
pub mod Cycle
pub mod Normalize
