-- ===== src/Examples/Store.antt =====
-- A running spec of three tasks: the first has passed, the second is active, and the third waits
-- for both. A second spec is queued.
use boi.Prelude.{ℕ, String, [], ◌∷◌, Option, none, some, ok, err}
use boi.Types.TaskState
use boi.Types.TaskState.{TaskState}
use boi.Types.SpecStatus
use boi.Types.SpecStatus.{SpecStatus}
use boi.Repo.SpecVersions.{version_row}
use boi.Types.Context.{Snapshot}
use boi.Repo.Db.{SpecVersionRow, dispatch, Db, TaskRuntimeRow, SpecRuntimeRow, TaskDepRow}
use boi.Prelude.{order_by}
use boi.Types.Ids
use boi.Transitions
use boi.Repo.TaskRuntime
use boi.Repo.SpecRuntime
use boi.Repo.PhaseRuns
use boi.Repo.Decisions
use boi.Bus
use boi.Bus.{EventBus, observer_failed}

abbrev pub spec_a : String
spec_a = "S0000001a"

abbrev pub task_1 : String
task_1 = "T0000001a"

abbrev pub task_2 : String
task_2 = "T0000002a"

abbrev pub task_3 : String
task_3 = "T0000003a"

abbrev pub task_row : String → TaskState → Option ℕ → Option ℕ → TaskRuntimeRow
task_row id state started completed = record {
  task_id = id;
  spec_id = spec_a;
  ref = none;
  state = TaskState.as_str state;
  blocked_reason = none;
  cancellation_reason = none;
  current_phase = none;
  evidence = none;
  iterations_plan_critique = 0;
  iterations_task_adjust = 0;
  iterations_execute_review = 0;
  iterations_spec_review = 0;
  worktree_path = none;
  branch_ref = none;
  started_at = started;
  completed_at = completed;
}

abbrev pub passed_row : TaskRuntimeRow
passed_row = task_row task_1 TaskState.passing (some 3) (some 7)

abbrev pub spec_row : String → SpecStatus → SpecRuntimeRow
spec_row id status = record {
  spec_id = id;
  current_version = 1;
  status = SpecStatus.as_str status;
  failure_reason = none;
  cancellation_reason = none;
  started_at = none;
  completed_at = none;
  iterations_plan_critique = 0;
  iterations_spec_review = 0;
}

abbrev pub sample : Snapshot
sample = record {
  snapshot_v = none;
  title = "sample";
  delivery = "merge";
  spec_contract = record {
    scope = "all";
    workspace = "/repo";
    base_branch = "main";
    exclusions = [];
    verifications = [];
    must_emit = [];
  };
  task_contracts = [];
  skills = [];
}

abbrev pub version : String → SpecVersionRow
version id = version_row id 1 sample dispatch

abbrev pub edge : String → String → TaskDepRow
edge a b = record { task_id = a; depends_on = b }

abbrev pub store : Db
store = record {
  specs = spec_a ∷ "S0000002b" ∷ [];
  spec_versions = version spec_a ∷ version "S0000002b" ∷ [];
  spec_runtime = spec_row spec_a SpecStatus.running ∷ spec_row "S0000002b" SpecStatus.queued ∷ [];
  task_runtime =
      passed_row
      ∷ task_row task_2 TaskState.active (some 8) none
      ∷ task_row task_3 TaskState.not_started none none
      ∷ [];
  task_deps = edge task_3 task_1 ∷ edge task_3 task_2 ∷ [];
  phase_runs = [];
  decisions = [];
}

-- The store before the second task was started.
abbrev pub idle_store : Db
idle_store = record store {
  task_runtime =
      passed_row
      ∷ task_row task_2 TaskState.not_started none none
      ∷ task_row task_3 TaskState.not_started none none
      ∷ [];
}

-- One observer fails at every event.
abbrev pub bus : EventBus ℕ
bus = record { observers = (λ _. err (observer_failed "offline")) ∷ (λ _. ok tt) ∷ [] }

-- The code of the repository and of the bus, for the runs that are evaluated.
unfoldable pub bus_code : Unit {0}
unfolding order_by TaskState.as_str TaskState.from_str SpecStatus.as_str SpecStatus.from_str
    Ids.new_with Ids.validate Ids.check_prefix Ids.check_body Transitions.check_task
    Transitions.check_spec TaskRuntime.write_row TaskRuntime.update_row TaskRuntime.set_state
    TaskRuntime.cancellation_of TaskRuntime.update_state TaskRuntime.fetch
    TaskRuntime.tasks_for_spec SpecRuntime.write_row SpecRuntime.set_status
    SpecRuntime.update_status SpecRuntime.fetch PhaseRuns.insert_start PhaseRuns.update_end
    Decisions.insert Bus.parse_task_state Bus.parse_spec_status Bus.parse_stored_id
    Bus.transition_task Bus.cancel_stranded_active_tasks Bus.transition_spec Bus.start_phase_run
    Bus.end_phase_run Bus.emit
bus_code = tt
