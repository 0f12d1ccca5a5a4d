-- ===== src/Bus/Lifecycle.antt =====
-- The lifecycle of tasks as an abstract machine on the table, and one transition of the bus in it.
use boi.Prelude.{
  ℕ, List, [], ◌∷◌, true, Option, none, some, ok, ◌≡◌, inl, inr, arith, any, find, Option-cases,
  Result-cases,
}
use boi.Types.Ids.{TaskId}
use boi.Types.Reasons.{BlockedReason, CancellationReason}
use boi.Types.TaskState
use boi.Types.TaskState.{TaskState}
use boi.Types.Event.{}
use boi.Transitions.{check_task}
use boi.Repo.Db.{Db, TerminalReason, TaskRuntimeRow}
use boi.Repo.TaskRuntime
use boi.Repo.TaskRuntime.{has_id, write_row, set_state, cancellation_of, update_state, update_row}
use boi.Bus.{parse_task_state, transition_task}

-- The reasons that go with a state: a blocked task has one for the block, a canceled one for the
-- cancellation, and no other task has any.
abbrev pub Fits : TaskState → Option CancellationReason → Option BlockedReason → Type 0
Fits TaskState.blocked none (some _) = Unit
Fits TaskState.canceled (some _) none = Unit
Fits TaskState.not_started none none = Unit
Fits TaskState.active none none = Unit
Fits TaskState.passing none none = Unit
Fits _ _ _ = ⊥

-- Any number of single changes of a task's row, each along a legal edge from the state that stands
-- in the row, with the reasons that fit the new state.
pub data TaskSteps : List TaskRuntimeRow → List TaskRuntimeRow → Type 0 where
  done : {rows : List TaskRuntimeRow} → TaskSteps rows rows
  write :
      {rows rows' : List TaskRuntimeRow} (t : TaskId) (row : TaskRuntimeRow) (from to : TaskState)
      (c : Option CancellationReason) (b : Option BlockedReason) (now : ℕ)
      → find (has_id t) rows ≡ some row
      → TaskState.from_str row.state ≡ ok from
      → check_task t from to ≡ ok tt
      → Fits to c b
      → TaskSteps (write_row t (set_state to c b now) rows) rows'
      → TaskSteps rows rows'

pub TaskSteps-trans : {a b c : List TaskRuntimeRow} → TaskSteps a b → TaskSteps b c → TaskSteps a c
TaskSteps-trans done s = s
TaskSteps-trans (write t row from to c b now f p l fit r) s =
    write t row from to c b now f p l fit (TaskSteps-trans r s)

pub any_of_find :
    (t : TaskId) (rows : List TaskRuntimeRow) {row : TaskRuntimeRow}
    → find (has_id t) rows ≡ some row
    → any (has_id t) rows ≡ true
any_of_find t [] e = cc
any_of_find t (x ∷ rows) {row} e = ground (arith, any_of_find t rows {row = row})

-- What one transition of a task does: it refuses and leaves the store alone, or it writes.
pub data Outcome (t : TaskId) (to : TaskState) (tr : Option TerminalReason)
    (b : Option BlockedReason) (now : ℕ) (db : Db) : Type 0 where
  refused :
      (transition_task t to tr b now db).1 ≡ db
      → ¬ ((transition_task t to tr b now db).0 ≡ ok tt)
      → Outcome t to tr b now db
  written :
      (row : TaskRuntimeRow) (from : TaskState) (c : Option CancellationReason)
      → find (has_id t) db.task_runtime ≡ some row
      → TaskState.from_str row.state ≡ ok from
      → check_task t from to ≡ ok tt
      → cancellation_of t tr ≡ ok c
      → transition_task t to tr b now db
        ≡ (ok tt, record db { task_runtime = write_row t (set_state to c b now) db.task_runtime })
      → Outcome t to tr b now db

module _ (t : TaskId) (to : TaskState) (tr : Option TerminalReason) (b : Option BlockedReason)
    (now : ℕ) (db : Db) where
  Outcome-found :
      (row : TaskRuntimeRow) → find (has_id t) db.task_runtime ≡ some row → Outcome t to tr b now db
  unfolding transition_task TaskRuntime.fetch parse_task_state update_state update_row
  Outcome-found row f = elim (Result-cases (TaskState.from_str row.state)) [
    | inr (e, p) ↦ refused (rw (f, p)) (rw (f, p) (λ q. cc))
    | inl (from, p) ↦ elim (Result-cases (check_task t from to)) [
      | inr (e, l) ↦ refused (rw (f, p, l)) (rw (f, p, l) (λ q. cc))
      | inl (tt, l) ↦ elim (Result-cases (cancellation_of t tr)) [
        | inr (e, c) ↦ refused (rw (f, p, l, c)) (rw (f, p, l, c) (λ q. cc))
        | inl (c, q) ↦ written row from c f p l q (rw (f, p, l, q, any_of_find t db.task_runtime f))
      ]
    ]
  ]

  pub transition_task-Outcome : Outcome t to tr b now db
  unfolding transition_task TaskRuntime.fetch
  transition_task-Outcome = elim (Option-cases (find (has_id t) db.task_runtime)) [
    | inl e ↦ refused (rw e) (rw e (λ q. cc))
    | inr (row, f) ↦ Outcome-found row f
  ]

-- The arguments that `persist` gives to a transition of a task: the reasons fit the new state.
abbrev pub FitsCall : TaskId → TaskState → Option TerminalReason → Option BlockedReason → Type 0
FitsCall t to tr b = (c : Option CancellationReason) → cancellation_of t tr ≡ ok c → Fits to c b

module _ (t : TaskId) (to : TaskState) (tr : Option TerminalReason) (b : Option BlockedReason)
    (now : ℕ) (db : Db) (fits : FitsCall t to tr b) where
  pub transition_task-TaskSteps :
      TaskSteps db.task_runtime (transition_task t to tr b now db).1.task_runtime
  transition_task-TaskSteps = elim (transition_task-Outcome t to tr b now db) [
    | refused same _ ↦ rw same done
    | written row from c f p l q e ↦ rw e (write t row from to c b now f p l (fits c q) done)
  ]
