-- ===== src/Types.antt =====
-- The `types` layer of the crate: src/types.
pub mod TaskState
pub mod SpecStatus
pub mod Ids
pub mod IdForm
pub mod Reasons
pub mod Verdict
pub mod Decision
pub mod Event
pub mod Plan
pub mod Context
