-- ===== src/Examples/Types.antt =====
-- An id of the sample store.
use boi.Prelude.{ok, ◌≡◌, ◌↔◌}
use boi.Types.Ids.{new_with}
use boi.Types.TaskState
use boi.Types.TaskState.{TaskState}
use boi.Types.IdForm.{IsId, new_with-IsId}
use boi.Examples.Store.{task_1}

new_with-IsId_example : (new_with b'T' task_1 ≡ ok task_1) ↔ ((task_1 ≡ task_1) × IsId b'T' task_1)
new_with-IsId_example = new_with-IsId b'T' task_1 task_1

stored_state_example :
    (TaskState.from_str "blocked" ≡ ok TaskState.blocked)
    ↔ ("blocked" ≡ TaskState.as_str TaskState.blocked)
stored_state_example = TaskState.stored_state "blocked" TaskState.blocked
