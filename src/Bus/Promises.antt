-- ===== src/Bus/Promises.antt =====
-- src/service/bus.rs: sequences of emissions, seen through the rows of tasks.
use boi.Prelude.{ℕ, List, ◌≡◌, In}
use boi.Types.TaskState
use boi.Types.TaskState.{TaskState}
use boi.Types.Event.{BoiEvent}
use boi.Transitions.Paths.{IsTerminal}
use boi.Repo.Db.{Db, TaskRuntimeRow}
use boi.Bus.{EventBus}
use boi.Bus.Refinement.{emit_all, emit_all-TaskSteps}
use boi.Bus.Invariant.{TableOk, History, TaskSteps-TableOk, TaskSteps-settled, TaskSteps-History}

module _ {Json : Type 0} (bus : EventBus Json) (es : List (BoiEvent Json × ℕ)) (db : Db) where
  -- From a table of tasks whose ids are distinct and whose rows are consistent, any emissions lead
  -- to such a table: each row's text is a state's, a blocked task alone has a blocked reason, a
  -- canceled one alone a cancellation reason, a task that has run has a start, and a task has an
  -- end exactly if it is passing or canceled.
  pub emit_all-TableOk : TableOk db.task_runtime → TableOk (emit_all bus es db).task_runtime
  emit_all-TableOk o = TaskSteps-TableOk (emit_all-TaskSteps bus es db) o

  -- In a table of tasks whose ids are distinct and whose rows are consistent, a row that is passing
  -- or canceled is the same row, in every column, after any emissions.
  pub emit_all-settled :
      (r : TaskRuntimeRow) (s : TaskState)
      → TableOk db.task_runtime
      → In r db.task_runtime
      → r.state ≡ TaskState.as_str s
      → IsTerminal s
      → In r (emit_all bus es db).task_runtime
  emit_all-settled r s o m e h = TaskSteps-settled r s (emit_all-TaskSteps bus es db) o m e h

  -- From a table of tasks whose ids are distinct and whose rows are consistent, every row after any
  -- emissions comes from a row of the same task before them, and its state follows from the older
  -- one by changes that `check_task` accepts.
  pub emit_all-History :
      (r : TaskRuntimeRow)
      → TableOk db.task_runtime
      → In r (emit_all bus es db).task_runtime
      → History db.task_runtime r
  emit_all-History r o m = TaskSteps-History r (emit_all-TaskSteps bus es db) o m
