-- ===== src/Scheduler/Once.antt =====
-- src/service/scheduler.rs after an event of src/service/bus.rs that starts a task.
use boi.Prelude.{ℕ, List, none, some, ok, ◌≡◌, ◌≢◌, inl, inr, ap, arith, In, Result-cases, find}
use boi.Types.Ids.{SpecId, TaskId}
use boi.Types.TaskState
use boi.Types.TaskState.{TaskState, from_str-as_str}
use boi.Repo.Db.{Db, TaskRuntimeRow}
use boi.Types.Ids.{new_task_id}
use boi.Types.Event.{task_started}
use boi.Transitions.{check_task}
use boi.Repo.TaskRuntime.{has_id, write_row, set_state, cancellation_of}
use boi.Repo.TaskRuntime.Rows.{In-of_In-write_row, All-write_row}
use boi.Bus.{EventBus, emit, persist, transition_task}
use boi.Bus.Lifecycle.{write, done, refused, written, transition_task-Outcome}
use boi.Bus.Invariant.{TaskSteps-TableOk, set_state-KeepsKey}
use boi.Scheduler.{ready_tasks}
use boi.Scheduler.Ready.{StoreOk, ready_tasks-IsReady}

module _ {Json : Type 0} (bus : EventBus Json) {db : Db} (o : StoreOk db) (s s' : SpecId)
    (t : TaskId) (now : ℕ) where
  started_row :
      (rows : List TaskRuntimeRow) (r : TaskRuntimeRow)
      → In r (write_row t (set_state TaskState.active none none now) rows)
      → r.task_id ≡ t
      → r.state ≢ TaskState.as_str TaskState.not_started
  unfolding set_state
  started_row rows r m e a =
      let (old, i, how) =
        In-of_In-write_row t (set_state TaskState.active none none now) r rows m in
      elim how [
        | inl (p, k) ↦ cc (
          ap (λ (w : TaskRuntimeRow). w.state) k,
          a,
          from_str-as_str TaskState.active,
          from_str-as_str TaskState.not_started,
        )
        | inr (n, k) ↦ n (rw (← k) e)
      ]

  started-StoreOk :
      (row : TaskRuntimeRow) (from : TaskState)
      → find (has_id t) db.task_runtime ≡ some row
      → TaskState.from_str row.state ≡ ok from
      → check_task t from TaskState.active ≡ ok tt
      → StoreOk (record db {
        task_runtime = write_row t (set_state TaskState.active none none now) db.task_runtime;
      })
  started-StoreOk row from f p l = record {
    tasks =
        TaskSteps-TableOk (write t row from TaskState.active none none now f p l tt done) o.tasks;
    task_ids =
        All-write_row t (set_state TaskState.active none none now)
          (λ r. new_task_id r.task_id ≡ ok r.task_id) db.task_runtime
          (λ r i e h. rw (set_state-KeepsKey TaskState.active none none now r).0 h) o.task_ids;
    dep_ids = o.dep_ids;
  }

  -- A task that the bus has started is not returned again: on a consistent store, after an
  -- accepted `TaskStarted`, `ready_tasks` of any spec succeeds without that task.
  pub started_not_ready :
      (emit bus (task_started s' t) now db).0 ≡ ok tt
      → (ready : List TaskId) × (ready_tasks s (emit bus (task_started s' t) now db).1
          ≡ (ok ready, (emit bus (task_started s' t) now db).1))
        × (¬ In t ready)
  unfolding emit persist cancellation_of
  started_not_ready h = elim (transition_task-Outcome t TaskState.active none none now db) [
    | refused same fails ↦
        elim (Result-cases (transition_task t TaskState.active none none now db).0) [
          | inl (u, y) ↦ absurd (fails y)
          | inr (x, y) ↦ absurd (cc (h, y))
        ]
    | written row from c f p l q e ↦
        let none_c : none ≡ c = ground arith in
        rw (e, ← none_c)
          (let (ready, y, exact) = ready_tasks-IsReady s (started-StoreOk row from f p l) in
            (
              ready,
              y,
              λ m.
                  let w = ((exact t).0 m).waiting in
                  started_row db.task_runtime w.row w.stored w.named w.stands,
            ))
  ]
