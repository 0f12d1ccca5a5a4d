-- ===== src/PlanLayer/Apply/Reports.antt =====
-- src/service/plan_layer.rs: what `on_report` does on every state of the reporting task.
use boi.Prelude.{
  ℕ, String, true, none, some, ok, err, ◌≡◌, ◌≢◌, ◌⊎◌, inl, inr, refl, In, any, find, any_of_In,
  eq_iff, subst,
}
use boi.Types.Ids.{SpecId, TaskId}
use boi.Types.TaskState
use boi.Types.TaskState.{TaskState, from_str-as_str}
use boi.Types.Reasons.{plan_revision_pending}
use boi.Transitions.{TransitionError, illegal_task_transition, check_task}
use boi.Repo.Db.{Db, TaskRuntimeRow}
use boi.Repo.TaskRuntime.{
  has_id, write_row, set_state, update_state, update_row, cancellation_of, fetch,
}
use boi.Repo.TaskRuntime.Rows.{find_of_In}
use boi.Bus.{EventBus, illegal_transition, emit, persist, transition_task, parse_task_state}
use boi.Bus.Invariant.{TableOk}
use boi.PlanLayer.{run_plan_revision, bus}
use boi.PlanLayer.Apply.{on_report}

module _ {Json : Type 0} (events : EventBus Json) (now : ℕ) (s : SpecId) (t : TaskId)
    (kind : String) (payload : Json) (db : Db) where
  abbrev pub with_report : Db
  with_report = record db {
    task_runtime =
        write_row t (set_state TaskState.blocked none (some (plan_revision_pending t kind)) now)
          db.task_runtime;
  }

  stored :
      (row : TaskRuntimeRow) (state : TaskState)
      → find (has_id t) db.task_runtime ≡ some row
      → any (has_id t) db.task_runtime ≡ true
      → TaskState.from_str row.state ≡ ok state
      → ((state ≡ TaskState.active)
          × (on_report events now s t kind payload true db
              ≡ (ok (run_plan_revision t), with_report)))
        ⊎ ((state ≢ TaskState.active)
            × ((e : TransitionError) × (on_report events now s t kind payload true db
                  ≡ (err (bus (illegal_transition e)), db))))
  unfolding on_report emit persist transition_task fetch update_state update_row cancellation_of
      parse_task_state check_task
  stored row TaskState.active f a p = inl (refl, rw (f, p, a))
  stored row TaskState.not_started f a p =
      inr
        (λ e. cc e, (illegal_task_transition t TaskState.not_started TaskState.blocked, rw (f, p)))
  stored row TaskState.blocked f a p =
      inr (λ e. cc e, (illegal_task_transition t TaskState.blocked TaskState.blocked, rw (f, p)))
  stored row TaskState.passing f a p =
      inr (λ e. cc e, (illegal_task_transition t TaskState.passing TaskState.blocked, rw (f, p)))
  stored row TaskState.canceled f a p =
      inr (λ e. cc e, (illegal_task_transition t TaskState.canceled TaskState.blocked, rw (f, p)))

  -- A blocking report of a stored task, on a table of tasks whose ids are distinct and whose rows
  -- are consistent. If the task is active, it becomes blocked, pending the plan revision that the
  -- report triggers, and the answer asks for that revision. In any other state the answer is that
  -- the transition is illegal, and the store is as it was.
  pub on_report_blocks :
      (row : TaskRuntimeRow) (state : TaskState)
      → TableOk db.task_runtime
      → In row db.task_runtime
      → row.task_id ≡ t
      → row.state ≡ TaskState.as_str state
      → ((state ≡ TaskState.active)
          × (on_report events now s t kind payload true db
              ≡ (ok (run_plan_revision t), with_report)))
        ⊎ ((state ≢ TaskState.active)
            × ((e : TransitionError) × (on_report events now s t kind payload true db
                  ≡ (err (bus (illegal_transition e)), db))))
  on_report_blocks row state o i named text =
      stored row state
        (subst (λ x. find (has_id x) db.task_runtime ≡ some row) named
          (find_of_In db.task_runtime row o.unique i))
        (any_of_In (has_id t) db.task_runtime row i ((eq_iff row.task_id t).1 named))
        (rw text (from_str-as_str state))
