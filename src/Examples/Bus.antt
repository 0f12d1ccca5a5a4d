-- ===== src/Examples/Bus.antt =====
-- Runs of the bus on the sample store.
use boi.Prelude.{ℕ, List, [], ◌∷◌, none, some, ok, ◌≡◌, refl, inl, ==-ne, In}
use boi.Types.TaskState.{TaskState}
use boi.Types.Reasons.{daemon_crash, daemon_draining, operator}
use boi.Types.Event.{BoiEvent, spec_failed, task_started, task_blocked, task_canceled}
use boi.Bus.{emit}
use boi.Bus.Lifecycle.{TaskSteps}
use boi.Bus.Refinement.{emit_all, emit_all-TaskSteps}
use boi.Bus.Invariant.{TableOk, History}
use boi.Bus.Promises.{emit_all-TableOk, emit_all-settled, emit_all-History}
use boi.Bus.Cascade.{NoneActive, ended_spec-NoneActive}
use boi.Examples.Store.{spec_a, task_1, task_2, task_3, passed_row, store, bus, bus_code}

-- The third task starts, the second is blocked and then canceled, the passed one cannot be
-- canceled, and the spec fails.
abbrev script : List (BoiEvent ℕ × ℕ)
script =
    (task_started spec_a task_3, 10)
    ∷ (task_blocked spec_a task_2 daemon_draining, 11)
    ∷ (task_canceled spec_a task_1 (operator none), 12)
    ∷ (task_canceled spec_a task_2 (operator (some "stop")), 13)
    ∷ (spec_failed spec_a daemon_crash, 14)
    ∷ []

pub store-TableOk : TableOk store.task_runtime
store-TableOk = record {
  unique = (
    (==-ne task_2 task_1 refl, (==-ne task_3 task_1 refl, tt)),
    ((==-ne task_3 task_2 refl, tt), (tt, tt)),
  );
  consistent = (
    record { state = TaskState.passing; text = refl; reasons = tt; stamps = tt },
    (
      record { state = TaskState.active; text = refl; reasons = tt; stamps = tt },
      (record { state = TaskState.not_started; text = refl; reasons = tt; stamps = tt }, tt),
    ),
  );
}

emit_all-TaskSteps_example : TaskSteps store.task_runtime (emit_all bus script store).task_runtime
emit_all-TaskSteps_example = emit_all-TaskSteps bus script store

emit_all-TableOk_example : TableOk (emit_all bus script store).task_runtime
emit_all-TableOk_example = emit_all-TableOk bus script store store-TableOk

emit_all-settled_example : In passed_row (emit_all bus script store).task_runtime
emit_all-settled_example =
    emit_all-settled bus script store passed_row TaskState.passing store-TableOk (inl refl) refl
      (inl refl)

emit_all-History_example : History store.task_runtime passed_row
emit_all-History_example =
    emit_all-History bus script store passed_row store-TableOk emit_all-settled_example

fails_ok : (emit bus (spec_failed spec_a daemon_crash) 14 store).0 ≡ ok tt
unfolding bus_code
fails_ok = refl

ended_spec-NoneActive_example :
    NoneActive spec_a (emit bus (spec_failed spec_a daemon_crash) 14 store).1
ended_spec-NoneActive_example =
    ended_spec-NoneActive bus spec_a 14 store (spec_failed spec_a daemon_crash) refl fails_ok
