-- ===== src/Repo.antt =====
-- The `repo` layer of the crate: the tables of src/migrations and the statements of src/repo.
pub mod Exec
pub mod Db
pub mod TaskRuntime
pub mod SpecRuntime
pub mod TaskDeps
pub mod PhaseRuns
pub mod Decisions
pub mod Dispatch
pub mod Outcome
pub mod SpecVersions
pub mod Ids
pub mod Clean
