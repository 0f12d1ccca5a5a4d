-- ===== src/Scheduler/States.antt =====
-- The pure parts of src/service/scheduler.rs: stored texts, the map of states, and the two loops
-- over the states of a spec's tasks.
use Prim.Native.String.{◌++◌ as text_append}
use boi.Prelude.{
  String, List, [], ◌∷◌, Bool, true, false, Option, none, some, Result, ok, err, ◌==◌, all,
  if◌then◌else◌, ◌>>=◌,
}
use boi.Types.Ids.{TaskId, new_task_id, IdError}
use boi.Types.TaskState
use boi.Types.TaskState.{TaskState, ParseStateError}
use boi.Repo.Db.{RepoError, not_found, TaskRuntimeRow}

pub data SchedulerError : Type 0 where
  repo : RepoError → SchedulerError

corrupt_state : String → Result ParseStateError TaskState → Result SchedulerError TaskState
corrupt_state id (ok state) = ok state
corrupt_state id (err e) = err (repo (not_found (text_append "corrupt task_runtime.state for " id)))

-- The rendering of the inner error is left out of the two messages.
unfoldable pub parse_state : String → String → Result SchedulerError TaskState
unfolding corrupt_state
parse_state task_id state = corrupt_state task_id (TaskState.from_str state)

corrupt_id : Result IdError TaskId → Result SchedulerError TaskId
corrupt_id (ok id) = ok id
corrupt_id (err e) = err (repo (not_found "corrupt task id in task_runtime"))

unfoldable pub parse_task_id : String → Result SchedulerError TaskId
unfolding corrupt_id
parse_task_id s = corrupt_id (new_task_id s)

-- The `HashMap` from a task's id to its state: the last insertion stands first.
abbrev pub StateById : Type 0
StateById = List (String × TaskState)

unfoldable pub get : StateById → String → Option TaskState
get [] k = none
get ((j, state) ∷ m) k = if j == k then some state else get m k

unfoldable pub index_states : StateById → List TaskRuntimeRow → Result SchedulerError StateById
index_states m [] = ok m
index_states m (row ∷ rows) =
    parse_state row.task_id row.state >>= λ state. index_states ((row.task_id, state) ∷ m) rows

abbrev pub is_not_started : Option TaskState → Bool
is_not_started (some TaskState.not_started) = true
is_not_started _ = false

abbrev pub is_passing : Option TaskState → Bool
is_passing (some TaskState.passing) = true
is_passing _ = false

-- A dependency that the map does not know counts as not passing.
abbrev pub all_deps_passing : StateById → List TaskId → Bool
all_deps_passing m deps = all (λ dep. is_passing (get m dep)) deps

abbrev pub is_terminal : TaskState → Bool
is_terminal TaskState.passing = true
is_terminal TaskState.canceled = true
is_terminal _ = false

unfoldable pub settled : List TaskRuntimeRow → Result SchedulerError Bool
settled [] = ok true
settled (row ∷ rows) =
    let rest = settled rows in
    parse_state row.task_id row.state >>= λ state. if is_terminal state then rest else ok false

unfoldable pub some_passing : List TaskRuntimeRow → Result SchedulerError Bool
some_passing [] = ok false
some_passing (row ∷ rows) =
    let rest = some_passing rows in
    parse_state row.task_id row.state >>= λ state. if is_passing (some state) then ok true else rest
