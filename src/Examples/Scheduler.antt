-- ===== src/Examples/Scheduler.antt =====
-- The scheduler on the sample stores.
use boi.Prelude.{
  ℕ, List, Bool, true, none, ok, ◌≡◌, inl, inr, refl, ◌↔◌, arith, In, ◌==◌, if◌then◌else◌,
}
use boi.Types.Ids.{TaskId, new_task_id}
use boi.Types.TaskState
use boi.Types.TaskState.{TaskState}
use boi.Types.Event.{task_started}
use boi.Repo.Db.{TaskRuntimeRow}
use boi.Bus.{emit}
use boi.Scheduler.{ready_tasks, all_tasks_settled, any_task_passing}
use boi.Scheduler.Ready.{StoreOk, TaskIn, IsReady, ready_tasks-IsReady}
use boi.Scheduler.Settled.{RowSettled, all_tasks_settled-RowSettled, any_task_passing-TaskIn}
use boi.Scheduler.Progress.{Quiet, Closed, Ranked, ready_tasks_progress}
use boi.Scheduler.Once.{started_not_ready}
use boi.Examples.Store.{
  spec_a, task_1, task_2, task_3, passed_row, task_row, store, idle_store, bus, bus_code,
}
use boi.Examples.Bus.{store-TableOk}

id_1 : new_task_id task_1 ≡ ok task_1
unfolding bus_code
id_1 = refl

id_2 : new_task_id task_2 ≡ ok task_2
unfolding bus_code
id_2 = refl

id_3 : new_task_id task_3 ≡ ok task_3
unfolding bus_code
id_3 = refl

pub store-StoreOk : StoreOk store
store-StoreOk = record {
  tasks = store-TableOk;
  task_ids = (id_1, (id_2, (id_3, tt)));
  dep_ids = (id_1, (id_2, tt));
}

idle_store-StoreOk : StoreOk idle_store
idle_store-StoreOk = record {
  tasks = record {
    unique = store-TableOk.unique;
    consistent = (
      record { state = TaskState.passing; text = refl; reasons = tt; stamps = tt },
      (
        record { state = TaskState.not_started; text = refl; reasons = tt; stamps = tt },
        (record { state = TaskState.not_started; text = refl; reasons = tt; stamps = tt }, tt),
      ),
    );
  };
  task_ids = (id_1, (id_2, (id_3, tt)));
  dep_ids = (id_1, (id_2, tt));
}

ready_tasks-IsReady_example :
    (ready : List TaskId) × (ready_tasks spec_a store ≡ (ok ready, store))
    × ((t : TaskId) → In t ready ↔ IsReady spec_a store t)
ready_tasks-IsReady_example = ready_tasks-IsReady spec_a store-StoreOk

all_tasks_settled-RowSettled_example :
    (b : Bool) × (all_tasks_settled spec_a store ≡ (ok b, store))
    × ((b ≡ true)
        ↔ ((r : TaskRuntimeRow) → In r store.task_runtime → r.spec_id ≡ spec_a → RowSettled r))
all_tasks_settled-RowSettled_example = all_tasks_settled-RowSettled store-StoreOk spec_a

any_task_passing-TaskIn_example :
    (b : Bool) × (any_task_passing spec_a store ≡ (ok b, store))
    × ((b ≡ true) ↔ (
        (r : TaskRuntimeRow) × In r store.task_runtime
        × (r.spec_id ≡ spec_a)
        × (r.state ≡ TaskState.as_str TaskState.passing)))
any_task_passing-TaskIn_example = any_task_passing-TaskIn store-StoreOk spec_a

-- The number of dependencies below a task.
abbrev rank_of : TaskId → ℕ
rank_of t = if t == task_3 then 2 else 0

idle_store-Quiet : Quiet spec_a idle_store
idle_store-Quiet r i e = elim i [
  | inl p ↦ rw p (inr refl)
  | inr (inl p) ↦ rw p (inl refl)
  | inr (inr (inl p)) ↦ rw p (inl refl)
  | inr (inr (inr x)) ↦ elim x [ ]
]

idle_store-Closed : Closed spec_a idle_store
idle_store-Closed r i e d (edge, j, a, b) = elim j [
  | inl p ↦ (passed_row, inl refl, refl, rw (← b, p) refl)
  | inr (inl p) ↦
      (task_row task_2 TaskState.not_started none none, inr (inl refl), refl, rw (← b, p) refl)
  | inr (inr x) ↦ elim x [ ]
]

idle_store-Ranked : Ranked rank_of idle_store
idle_store-Ranked t d (edge, j, a, b) = elim j [
  | inl p ↦ rw (← a, ← b, p) (omega arith)
  | inr (inl p) ↦ rw (← a, ← b, p) (omega arith)
  | inr (inr x) ↦ elim x [ ]
]

task_3-waits : TaskIn spec_a idle_store task_3 TaskState.not_started
task_3-waits = record {
  row = task_row task_3 TaskState.not_started none none;
  stored = inr (inr (inl refl));
  of_spec = refl;
  named = refl;
  stands = refl;
}

ready_tasks_progress_example :
    (ready : List TaskId) × (ready_tasks spec_a idle_store ≡ (ok ready, idle_store))
    × ((r : TaskId) × In r ready)
ready_tasks_progress_example =
    ready_tasks_progress idle_store-StoreOk spec_a rank_of idle_store-Quiet idle_store-Closed
      idle_store-Ranked task_3 task_3-waits

starts_ok : (emit bus (task_started spec_a task_3) 20 store).0 ≡ ok tt
unfolding bus_code
starts_ok = refl

started_not_ready_example :
    (ready : List TaskId) × (ready_tasks spec_a (emit bus (task_started spec_a task_3) 20 store).1
      ≡ (ok ready, (emit bus (task_started spec_a task_3) 20 store).1))
    × (¬ In task_3 ready)
started_not_ready_example = started_not_ready bus store-StoreOk spec_a spec_a task_3 20 starts_ok
