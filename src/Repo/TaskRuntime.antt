-- ===== src/Repo/TaskRuntime.antt =====
-- src/repo/task_runtime.rs: the rows of tasks.
pub mod Rows
use Prim.Native.String.{◌++◌ as text_append}
use boi.Prelude.{
  ℕ, suc, ◌+◌, String, List, [], ◌∷◌, Bool, true, false, Option, none, some, Result, ok, err, ◌==◌,
  ◌++◌, any, find, filter, contains, map, order_by, text_leb, if◌then◌else◌,
}
use boi.Types.Ids.{TaskId, SpecId}
use boi.Types.Reasons.{BlockedReason, CancellationReason}
use boi.Types.TaskState
use boi.Types.TaskState.{TaskState}
use boi.Repo.Exec.{Exec, pure, fail, lift, ◌>>=◌, ◌>>◌}
use boi.Repo.Db.{
  Db, Repo, RepoError, duplicate, not_found, sqlx, TerminalReason, failure, cancellation,
  TaskRuntimeRow, or_missing,
}

pub data IterationCounter : Type 0 where
  plan_critique task_adjust execute_review spec_review : IterationCounter

-- The `WHERE task_id = ?1` of the statements.
abbrev pub has_id : TaskId → TaskRuntimeRow → Bool
has_id task_id row = row.task_id == task_id

-- An `UPDATE ... WHERE task_id = ?1`.
unfoldable pub write_row :
    TaskId → (TaskRuntimeRow → TaskRuntimeRow) → List TaskRuntimeRow → List TaskRuntimeRow
write_row task_id f [] = []
write_row task_id f (row ∷ rows) =
    (if has_id task_id row then f row else row) ∷ write_row task_id f rows

-- The UPDATE and its `rows_affected`, with the error for a missing row.
unfoldable pub update_row : TaskId → (TaskRuntimeRow → TaskRuntimeRow) → String → Repo (Unit {0})
update_row task_id f missing db =
    if any (has_id task_id) db.task_runtime
    then (ok tt, record db { task_runtime = write_row task_id f db.task_runtime })
    else (err (not_found missing), db)

abbrev pub new_row : TaskId → SpecId → Option String → TaskRuntimeRow
new_row task_id spec_id task_ref = record {
  task_id = task_id;
  spec_id = spec_id;
  ref = task_ref;
  state = TaskState.as_str TaskState.not_started;
  blocked_reason = none;
  cancellation_reason = none;
  current_phase = none;
  evidence = none;
  iterations_plan_critique = 0;
  iterations_task_adjust = 0;
  iterations_execute_review = 0;
  iterations_spec_review = 0;
  worktree_path = none;
  branch_ref = none;
  started_at = none;
  completed_at = none;
}

-- The primary key on `task_id`, then the foreign key on `spec_id`.
unfoldable pub insert_task : TaskId → SpecId → Option String → Repo (Unit {0})
insert_task task_id spec_id task_ref db =
    if any (has_id task_id) db.task_runtime
    then (
      err (duplicate (text_append "task_runtime for " (text_append task_id " already exists"))),
      db,
    )
    else if contains db.specs spec_id
    then (
      ok tt,
      record db { task_runtime = db.task_runtime ++ new_row task_id spec_id task_ref ∷ [] },
    )
    else (err sqlx, db)

-- `task_runtime` has no column for a failure reason.
unfoldable pub cancellation_of :
    TaskId → Option TerminalReason → Result RepoError (Option CancellationReason)
cancellation_of task_id (some (cancellation c)) = ok (some c)
cancellation_of task_id (some (failure _)) = err (
    duplicate (
      text_append "task " (
        text_append task_id
          ": TerminalReason::Failure is invalid for a task (tasks have no `failed` state)")))
cancellation_of task_id none = ok none

-- `COALESCE(old, new)`.
abbrev pub coalesce : Option ℕ → Option ℕ → Option ℕ
coalesce (some t) _ = some t
coalesce none new = new

abbrev pub started_stamp : TaskState → ℕ → Option ℕ
started_stamp TaskState.active now = some now
started_stamp _ now = none

abbrev pub completed_stamp : TaskState → ℕ → Option ℕ
completed_stamp TaskState.passing now = some now
completed_stamp TaskState.canceled now = some now
completed_stamp _ now = none

unfoldable pub set_state :
    TaskState
    → Option CancellationReason
    → Option BlockedReason
    → ℕ
    → TaskRuntimeRow
    → TaskRuntimeRow
set_state state canceled_for blocked_for now row = record row {
  state = TaskState.as_str state;
  cancellation_reason = canceled_for;
  blocked_reason = blocked_for;
  started_at = coalesce row.started_at (started_stamp state now);
  completed_at = coalesce row.completed_at (completed_stamp state now);
}

unfoldable pub update_state :
    TaskId → TaskState → Option TerminalReason → Option BlockedReason → ℕ → Repo (Unit {0})
update_state task_id state terminal_reason blocked_reason now = do
  canceled_for ← lift (cancellation_of task_id terminal_reason)
  update_row task_id (set_state state canceled_for blocked_reason now) (
      text_append "task_runtime for "
        (text_append task_id " (update_state against a missing task)"))

abbrev pub counter_value : IterationCounter → TaskRuntimeRow → ℕ
counter_value plan_critique row = row.iterations_plan_critique
counter_value task_adjust row = row.iterations_task_adjust
counter_value execute_review row = row.iterations_execute_review
counter_value spec_review row = row.iterations_spec_review

abbrev pub bump : IterationCounter → TaskRuntimeRow → TaskRuntimeRow
bump plan_critique row = record row { iterations_plan_critique = row.iterations_plan_critique + 1 }
bump task_adjust row = record row { iterations_task_adjust = row.iterations_task_adjust + 1 }
bump execute_review row = record row {
  iterations_execute_review = row.iterations_execute_review + 1;
}
bump spec_review row = record row { iterations_spec_review = row.iterations_spec_review + 1 }

unfoldable pub fetch : TaskId → Repo TaskRuntimeRow
fetch task_id db = (
  or_missing (find (has_id task_id) db.task_runtime) (text_append "task_runtime for " task_id),
  db,
)

-- The UPDATE ... RETURNING gives the counter's new value.
unfoldable pub increment_iteration : TaskId → IterationCounter → Repo ℕ
unfolding update_row fetch
increment_iteration task_id counter = do
  update_row task_id (bump counter) (text_append "task_runtime for " task_id)
  row ← fetch task_id
  pure (counter_value counter row)

unfoldable pub reset_iterations : TaskId → Repo (Unit {0})
unfolding update_row
reset_iterations task_id =
    update_row task_id
      (λ row. record row {
        iterations_plan_critique = 0;
        iterations_task_adjust = 0;
        iterations_execute_review = 0;
        iterations_spec_review = 0;
      })
      (text_append "task_runtime for " task_id)

unfoldable pub tasks_for_spec : SpecId → Repo (List TaskRuntimeRow)
tasks_for_spec spec_id db = (
  ok (
      order_by (λ a b. text_leb a.task_id b.task_id)
        (filter (λ row. row.spec_id == spec_id) db.task_runtime)),
  db,
)
