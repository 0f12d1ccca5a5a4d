-- ===== src/Transitions/Paths.antt =====
-- src/service/transitions.rs: the legality matrices over any number of steps.
use boi.Prelude.{◌≡◌, ◌≢◌, ◌⊎◌, ok, arith}
use boi.Types.TaskState.{TaskState}
use boi.Types.SpecStatus.{SpecStatus}
use boi.Types.Ids.{SpecId, TaskId}
use boi.Transitions.{check_task, check_spec}

-- Lifecycles: sequences of changes that `check_task`, or `check_spec`, accepts.
pub data TaskPath (task_id : TaskId) : TaskState → TaskState → Type 0 where
  stop : {a : TaskState} → TaskPath task_id a a
  step :
      {a b c : TaskState}
      → check_task task_id a b ≡ ok tt
      → TaskPath task_id b c
      → TaskPath task_id a c

pub data SpecPath (spec_id : SpecId) : SpecStatus → SpecStatus → Type 0 where
  stop : {a : SpecStatus} → SpecPath spec_id a a
  step :
      {a b c : SpecStatus}
      → check_spec spec_id a b ≡ ok tt
      → SpecPath spec_id b c
      → SpecPath spec_id a c

abbrev pub IsTerminal : TaskState → Type 0
IsTerminal a = (a ≡ TaskState.passing) ⊎ (a ≡ TaskState.canceled)

abbrev pub IsTerminalSpec : SpecStatus → Type 0
IsTerminalSpec a = (a ≡ SpecStatus.completed) ⊎ (a ≡ SpecStatus.failed) ⊎ (a ≡ SpecStatus.canceled)

pub terminal_no_step : (t : TaskId) (a b : TaskState) → IsTerminal a → check_task t a b ≢ ok tt
unfolding check_task
terminal_no_step t a b h e = ground arith

pub terminal_spec_no_step :
    (s : SpecId) (a b : SpecStatus) → IsTerminalSpec a → check_spec s a b ≢ ok tt
unfolding check_spec
terminal_spec_no_step t a b h e = ground arith
