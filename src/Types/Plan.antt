-- ===== src/Types/Plan.antt =====
-- src/types/plan.rs, and the `Verification` of src/types/context.rs that its edits carry.
use boi.Prelude.{String, List, Option}
use boi.Types.Ids.{TaskId}

pub data Verification : Type 0 where
  intent : Option String → String → Verification
  command : Option String → String → Verification

pub data PlanEdit : Type 0 where
  -- behavior, verifications, blocked_by
  add_task : String → List Verification → List TaskId → PlanEdit
  -- task_id, replacement
  remove_task : TaskId → Option TaskId → PlanEdit
  -- task_id, new_deps
  retarget_deps : TaskId → List TaskId → PlanEdit

pub record PlanRevision : Type 0 where
  pub edits : List PlanEdit
