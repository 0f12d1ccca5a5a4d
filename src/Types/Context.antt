-- ===== src/Types/Context.antt =====
-- src/types/context.rs: the contracts of a spec and of its tasks, and the snapshot of a spec that
-- the rows of `spec_versions` hold (put together in src/cli/dispatch.rs).
use boi.Prelude.{ℕ, String, List, Option}
use boi.Types.Ids.{TaskId}
use boi.Types.Plan.{Verification}

pub record SkillRef : Type 0 where
  pub name : String

pub record SpecContract : Type 0 where
  pub scope : String
  pub workspace : String
  pub base_branch : String
  pub exclusions : List String
  pub verifications : List Verification
  pub must_emit : List String

pub record TaskContract : Type 0 where
  pub behavior : String
  pub verifications : List Verification

pub record Snapshot : Type 0 where
  pub snapshot_v : Option ℕ
  pub title : String
  pub delivery : String
  pub spec_contract : SpecContract
  pub task_contracts : List (TaskId × TaskContract)
  pub skills : List SkillRef
