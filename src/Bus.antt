-- ===== src/Bus.antt =====
-- src/service/bus.rs: the event bus persists an event, then tells the observers. The instant `now`
-- is what `Utc::now()` gives during one emit.
pub mod Lifecycle
pub mod Refinement
pub mod Invariant
pub mod Promises
pub mod Cascade
use Prim.Native.String.{◌++◌ as text_append}
use boi.Prelude.{
  ℕ, String, List, [], ◌∷◌, Bool, true, false, Option, none, some, Result, ok, err, if◌then◌else◌,
}
use boi.Types.Ids.{SpecId, TaskId, PhaseRunId, new_task_id, IdError}
use boi.Types.Reasons.{BlockedReason, CancellationReason, spec_canceled as spec_was_canceled}
use boi.Types.TaskState
use boi.Types.TaskState.{TaskState, ParseStateError}
use boi.Types.SpecStatus
use boi.Types.SpecStatus.{SpecStatus}
use boi.Types.Verdict.{VerdictOutcome, WorkerVerdict}
use boi.Types.Event.{
  BoiEvent, spec_started, spec_completed, spec_failed, spec_canceled, task_started, task_blocked,
  task_unblocked, task_passed, task_canceled, plan_revised, phase_started, phase_completed,
  decision_made, report_received, verify_checked, tool_invoked, error_encountered,
}
use boi.Transitions.{TransitionError, check_task, check_spec}
use boi.Repo.Exec.{Exec, pure, lift, wrap, convert, ◌>>=◌, ◌>>◌}
use boi.Repo.Db.{Db, RepoError, not_found, TerminalReason, failure, cancellation, TaskRuntimeRow}
use boi.Repo.TaskRuntime
use boi.Repo.SpecRuntime
use boi.Repo.PhaseRuns
use boi.Repo.Decisions

pub data BusError : Type 0 where
  persist_failed : RepoError → BusError
  illegal_transition : TransitionError → BusError

-- Actions of the bus on the store.
abbrev pub Bus : Type 0 → Type 0
Bus A = Exec Db BusError A

corrupt_state : {A : Type 0} → Result ParseStateError A → Result BusError A
corrupt_state (ok a) = ok a
corrupt_state (err e) = err (persist_failed (not_found (text_append "corrupt state: " e.got)))

unfoldable pub parse_task_state : String → Result BusError TaskState
unfolding corrupt_state
parse_task_state s = corrupt_state (TaskState.from_str s)

unfoldable pub parse_spec_status : String → Result BusError SpecStatus
unfolding corrupt_state
parse_spec_status s = corrupt_state (SpecStatus.from_str s)

corrupt_id : String → Result IdError TaskId → Result BusError TaskId
corrupt_id s (ok t) = ok t
corrupt_id s (err e) = err (persist_failed (not_found (text_append "corrupt task id: " s)))

unfoldable pub parse_stored_id : String → Result BusError TaskId
unfolding corrupt_id
parse_stored_id s = corrupt_id s (new_task_id s)

-- Fetch, guard, write.
unfoldable pub transition_task :
    TaskId → TaskState → Option TerminalReason → Option BlockedReason → ℕ → Bus (Unit {0})
transition_task task_id to terminal_reason blocked_reason now = do
  current ← convert persist_failed (TaskRuntime.fetch task_id)
  from ← lift (parse_task_state current.state)
  lift (wrap illegal_transition (check_task task_id from to))
  convert persist_failed (TaskRuntime.update_state task_id to terminal_reason blocked_reason now)

abbrev pub is_active : TaskState → Bool
is_active TaskState.active = true
is_active _ = false

-- The loop of `cancel_stranded_active_tasks` over the fetched rows.
unfoldable pub cancel_active : ℕ → List TaskRuntimeRow → Bus (Unit {0})
cancel_active now [] = pure tt
cancel_active now (row ∷ rows) =
    let rest = cancel_active now rows in
    do
      state ← lift (parse_task_state row.state)
      if is_active state
          then (do
            task_id ← lift (parse_stored_id row.task_id)
            transition_task task_id TaskState.canceled (some (cancellation spec_was_canceled)) none
                now
            rest)
          else rest

unfoldable pub cancel_stranded_active_tasks : SpecId → ℕ → Bus (Unit {0})
unfolding cancel_active
cancel_stranded_active_tasks spec_id now = do
  tasks ← convert persist_failed (TaskRuntime.tasks_for_spec spec_id)
  cancel_active now tasks

abbrev pub cascades : SpecStatus → Bool
cascades SpecStatus.failed = true
cascades SpecStatus.canceled = true
cascades _ = false

unfoldable pub transition_spec : SpecId → SpecStatus → Option TerminalReason → ℕ → Bus (Unit {0})
transition_spec spec_id to reason now = do
  current ← convert persist_failed (SpecRuntime.fetch spec_id)
  from ← lift (parse_spec_status current.status)
  lift (wrap illegal_transition (check_spec spec_id from to))
  convert persist_failed (SpecRuntime.update_status spec_id to reason now)
  if cascades to then cancel_stranded_active_tasks spec_id now else pure tt

-- A passing verdict carries the files that it touched.
abbrev pub touched : VerdictOutcome → List String
touched (VerdictOutcome.passing evidence) = evidence.files_touched
touched _ = []

unfoldable pub start_phase_run :
    PhaseRunId → SpecId → Option TaskId → String → String → ℕ → ℕ → Bus (Unit {0})
start_phase_run run spec_id task_id phase provider iteration now = do
  spec ← convert persist_failed (SpecRuntime.fetch spec_id)
  convert persist_failed (
      PhaseRuns.insert_start run spec_id task_id phase iteration spec.current_version provider none
        now)

unfoldable pub end_phase_run : PhaseRunId → WorkerVerdict → ℕ → ℕ → ℕ → Bus (Unit {0})
end_phase_run run verdict tokens_in tokens_out now = convert persist_failed (
    PhaseRuns.update_end run verdict.synopsis verdict (touched verdict.outcome) tokens_in tokens_out
      now)

module _ {Json : Type 0} where
  unfoldable pub persist : BoiEvent Json → ℕ → Bus (Unit {0})
  persist (task_started _ t) now = transition_task t TaskState.active none none now
  persist (task_blocked _ t reason) now = transition_task t TaskState.blocked none (some reason) now
  persist (task_unblocked _ t) now = transition_task t TaskState.active none none now
  persist (task_passed _ t _) now = transition_task t TaskState.passing none none now
  persist (task_canceled _ t reason) now =
      transition_task t TaskState.canceled (some (cancellation reason)) none now
  persist (spec_started s) now = transition_spec s SpecStatus.running none now
  persist (spec_completed s) now = transition_spec s SpecStatus.completed none now
  persist (spec_failed s reason) now =
      transition_spec s SpecStatus.failed (some (failure reason)) now
  persist (spec_canceled s reason) now =
      transition_spec s SpecStatus.canceled (some (cancellation reason)) now
  persist (phase_started run s t phase provider model iteration) now =
      start_phase_run run s t phase provider iteration now
  persist (phase_completed run s t phase verdict tokens_in tokens_out ms) now =
      end_phase_run run verdict tokens_in tokens_out now
  persist (decision_made d) now = convert persist_failed (Decisions.insert d)
  persist (plan_revised _ _ _ _) now = pure tt
  persist (report_received _ _ _ _ _) now = pure tt
  persist (verify_checked _ _ _ _ _ _) now = pure tt
  persist (tool_invoked _ _ _ _ _) now = pure tt
  persist (error_encountered _ _ _ _ _ _ _) now = pure tt

-- An observer has the event and no store; its error is logged and dropped.
pub data ObserverError : Type 0 where
  observer_failed : String → ObserverError

abbrev pub Observer : Type 0 → Type 0
Observer Json = BoiEvent Json → Result ObserverError (Unit {0})

pub record EventBus (Json : Type 0) : Type 0 where
  pub observers : List (Observer Json)

abbrev ignore : List (Result ObserverError (Unit {0})) → Unit {0}
ignore _ = tt

module _ {Json : Type 0} where
  -- Calls every observer, whatever the ones before it returned.
  unfoldable pub notify :
      List (Observer Json) → BoiEvent Json → List (Result ObserverError (Unit {0}))
  notify [] event = []
  notify (observer ∷ rest) event = observer event ∷ notify rest event

  -- The answer of a failed persist; else every observer is called, and what they answer is ignored.
  unfoldable pub emit : EventBus Json → BoiEvent Json → ℕ → Bus (Unit {0})
  unfolding persist
  emit bus event now = do persist event now; pure (ignore (notify bus.observers event))
