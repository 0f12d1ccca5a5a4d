-- ===== src/Transitions.antt =====
-- src/service/transitions.rs: which lifecycle changes the bus lets through.
pub mod Paths
use boi.Prelude.{Bool, true, false, Result, ok, err, if◌then◌else◌}
use boi.Types.TaskState
use boi.Types.TaskState.{TaskState}
use boi.Types.SpecStatus
use boi.Types.SpecStatus.{SpecStatus}
use boi.Types.Ids.{SpecId, TaskId}

pub data TransitionError : Type 0 where
  illegal_task_transition : TaskId → TaskState → TaskState → TransitionError
  illegal_spec_transition : SpecId → SpecStatus → SpecStatus → TransitionError

abbrev pub task_legal : TaskState → TaskState → Bool
task_legal TaskState.not_started TaskState.active = true
task_legal TaskState.active TaskState.blocked = true
task_legal TaskState.blocked TaskState.active = true
task_legal TaskState.active TaskState.passing = true
task_legal TaskState.not_started TaskState.canceled = true
task_legal TaskState.active TaskState.canceled = true
task_legal TaskState.blocked TaskState.canceled = true
task_legal _ _ = false

unfoldable pub check_task : TaskId → TaskState → TaskState → Result TransitionError (Unit {0})
check_task task_id from to =
    if task_legal from to then ok tt else err (illegal_task_transition task_id from to)

abbrev pub spec_legal : SpecStatus → SpecStatus → Bool
spec_legal SpecStatus.queued SpecStatus.running = true
spec_legal SpecStatus.running SpecStatus.completed = true
spec_legal SpecStatus.running SpecStatus.failed = true
spec_legal SpecStatus.running SpecStatus.canceled = true
spec_legal SpecStatus.queued SpecStatus.canceled = true
spec_legal _ _ = false

unfoldable pub check_spec : SpecId → SpecStatus → SpecStatus → Result TransitionError (Unit {0})
check_spec spec_id from to =
    if spec_legal from to then ok tt else err (illegal_spec_transition spec_id from to)
