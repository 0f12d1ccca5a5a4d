-- ===== src/Scheduler.antt =====
-- src/service/scheduler.rs: which tasks can start, and when a spec's tasks are settled.
pub mod States
pub mod StateMap
pub mod Ready
pub mod Settled
pub mod Progress
pub mod Once
use boi.Prelude.{List, [], ◌∷◌, Bool, not, if◌then◌else◌}
use boi.Types.Ids.{SpecId, TaskId}
use boi.Repo.Exec.{Exec, pure, lift, convert, ◌>>=◌}
use boi.Repo.Db.{Db, TaskRuntimeRow}
use boi.Repo.TaskRuntime
use boi.Repo.TaskDeps
use States.{
  SchedulerError, repo, parse_task_id, StateById, get, index_states, is_not_started,
  all_deps_passing, settled, some_passing,
}

abbrev pub Scheduling : Type 0 → Type 0
Scheduling A = Exec Db SchedulerError A

-- The loop of `ready_tasks` over the rows of the spec.
unfoldable pub collect_ready : StateById → List TaskRuntimeRow → Scheduling (List TaskId)
collect_ready m [] = pure []
collect_ready m (row ∷ rows) =
    let rest = collect_ready m rows in
    if not (is_not_started (get m row.task_id)) then rest else do
      task_id ← lift (parse_task_id row.task_id)
      deps ← convert repo (TaskDeps.deps_of task_id)
      ready ← rest
      pure (if all_deps_passing m deps then task_id ∷ ready else ready)

unfoldable pub ready_tasks : SpecId → Scheduling (List TaskId)
ready_tasks spec_id = do
  tasks ← convert repo (TaskRuntime.tasks_for_spec spec_id)
  state_by_id ← lift (index_states [] tasks)
  collect_ready state_by_id tasks

unfoldable pub all_tasks_settled : SpecId → Scheduling Bool
all_tasks_settled spec_id = do
  tasks ← convert repo (TaskRuntime.tasks_for_spec spec_id)
  lift (settled tasks)

unfoldable pub any_task_passing : SpecId → Scheduling Bool
any_task_passing spec_id = do
  tasks ← convert repo (TaskRuntime.tasks_for_spec spec_id)
  lift (some_passing tasks)
