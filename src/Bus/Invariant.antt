-- ===== src/Bus/Invariant.antt =====
-- The rows of tasks: their consistency, and their histories under the lifecycle machine.
use boi.Prelude.{
  ℕ, List, Option, none, some, ok, ◌≡◌, inl, inr, refl, sym, ◌∙◌, arith, find, In, All, All-In,
}
use boi.Types.Reasons.{BlockedReason, CancellationReason}
use boi.Types.TaskState
use boi.Types.TaskState.{TaskState, from_str-as_str, as_str_of_from_str}
use boi.Types.Ids.{TaskId}
use boi.Transitions.{check_task}
use boi.Transitions.Paths.{TaskPath, stop, step, IsTerminal, terminal_no_step}
use boi.Repo.Db.{TaskRuntimeRow}
use boi.Repo.TaskRuntime.{has_id, write_row, set_state, coalesce, started_stamp, completed_stamp}
use mathlib.Core.Path.{subst}
use boi.Repo.TaskRuntime.Rows.{
  Unique, KeepsKey, All-write_row, Unique-write_row, find-In, Unique-In, In-write_row_ne,
  In-of_In-write_row,
}
use boi.Bus.Lifecycle.{Fits, TaskSteps, done, write}

-- The instants that go with a state: the start of a task that has run, the end of a settled one.
abbrev pub Stamped : TaskState → Option ℕ → Option ℕ → Type 0
Stamped TaskState.not_started none none = Unit
Stamped TaskState.active (some _) none = Unit
Stamped TaskState.blocked (some _) none = Unit
Stamped TaskState.passing (some _) (some _) = Unit
Stamped TaskState.canceled _ (some _) = Unit
Stamped _ _ _ = ⊥

-- A row is consistent: its text is a state's, and its reasons and instants are those of the state.
pub record RowOk (row : TaskRuntimeRow) : Type 0 where
  pub state : TaskState
  pub text : row.state ≡ TaskState.as_str state
  pub reasons : Fits state row.cancellation_reason row.blocked_reason
  pub stamps : Stamped state row.started_at row.completed_at

pub record TableOk (rows : List TaskRuntimeRow) : Type 0 where
  pub unique : Unique rows
  pub consistent : All RowOk rows

pub set_state-KeepsKey :
    (to : TaskState) (c : Option CancellationReason) (b : Option BlockedReason) (now : ℕ)
    → KeepsKey (set_state to c b now)
unfolding set_state
set_state-KeepsKey to c b now row = (refl, refl)

stamps_after :
    (t : TaskId) (from to : TaskState) (s e : Option ℕ) (now : ℕ)
    → check_task t from to ≡ ok tt
    → Stamped from s e
    → Stamped to (coalesce s (started_stamp to now)) (coalesce e (completed_stamp to now))
unfolding check_task
stamps_after t TaskState.not_started to s e now l h = ground arith
stamps_after t TaskState.active to s e now l h = ground arith
stamps_after t TaskState.blocked to s e now l h = ground arith
stamps_after t TaskState.passing to s e now l h = ground arith
stamps_after t TaskState.canceled to s e now l h = ground arith

state_of_text :
    {row : TaskRuntimeRow} (from : TaskState) (ok_row : RowOk row)
    → TaskState.from_str row.state ≡ ok from
    → ok_row.state ≡ from
state_of_text {row} from o p = ground (arith, from_str-as_str o.state, o.text)

set_state-RowOk :
    (t : TaskId) (row : TaskRuntimeRow) (from to : TaskState) (c : Option CancellationReason)
    (b : Option BlockedReason) (now : ℕ)
    → TaskState.from_str row.state ≡ ok from
    → check_task t from to ≡ ok tt
    → Fits to c b
    → RowOk row
    → RowOk (set_state to c b now row)
unfolding set_state
set_state-RowOk t row from to c b now p l f o = record {
  state = to;
  text = refl;
  reasons = f;
  stamps =
      stamps_after t from to row.started_at row.completed_at now l
        (subst (λ s. Stamped s row.started_at row.completed_at) (state_of_text from o p) o.stamps);
}

-- Consistency is kept along every run of the lifecycle.
pub TaskSteps-TableOk :
    {rows rows' : List TaskRuntimeRow} → TaskSteps rows rows' → TableOk rows → TableOk rows'
TaskSteps-TableOk done o = o
TaskSteps-TableOk {rows} (write t row from to c b now f p l fit rest) o =
    TaskSteps-TableOk rest (record {
      unique = Unique-write_row t _ (set_state-KeepsKey to c b now) rows o.unique;
      consistent =
          All-write_row t (set_state to c b now) RowOk rows
            (λ r m e ok_r.
              let same : row ≡ r =
                Unique-In rows row r o.unique (find-In t rows f).0 m
                  ((find-In t rows f).1 ∙ sym e) in
              set_state-RowOk t r from to c b now (rw (← same) p) l fit ok_r)
            o.consistent;
    })

-- Where a row comes from: the row of the same task before the run, and the lifecycle in between.
pub record History (rows : List TaskRuntimeRow) (r : TaskRuntimeRow) : Type 0 where
  pub old : TaskRuntimeRow
  pub old_in : In old rows
  pub same_task : old.task_id ≡ r.task_id
  pub from : TaskState
  pub to : TaskState
  pub from_text : old.state ≡ TaskState.as_str from
  pub to_text : r.state ≡ TaskState.as_str to
  pub path : TaskPath r.task_id from to

as_str-injective : (a b : TaskState) → TaskState.as_str a ≡ TaskState.as_str b → a ≡ b
as_str-injective a b e = cc (from_str-as_str a, from_str-as_str b)

module _ {rows : List TaskRuntimeRow} (t : TaskId) (row : TaskRuntimeRow) (from to : TaskState)
    (c : Option CancellationReason) (b : Option BlockedReason) (now : ℕ)
    (f : find (has_id t) rows ≡ some row) (p : TaskState.from_str row.state ≡ ok from)
    (l : check_task t from to ≡ ok tt) (r : TaskRuntimeRow) where
  History-write :
      TableOk rows → History (write_row t (set_state to c b now) rows) r → History rows r
  unfolding set_state
  History-write o h =
      let (x, x_in, how) = In-of_In-write_row t (set_state to c b now) h.old rows h.old_in in
      elim how [
        | inl (q, e) ↦
            let same : row ≡ x =
              Unique-In rows row x o.unique (find-In t rows f).0 x_in
                ((find-In t rows f).1 ∙ sym q) in
            let id : r.task_id ≡ t = ground (arith, h.same_task, e, q) in
            let at : h.from ≡ to = as_str-injective _ _ (ground (arith, h.from_text, e)) in
            record {
              old = x;
              old_in = x_in;
              same_task = q ∙ sym id;
              from = from;
              to = h.to;
              from_text = rw (← same) (as_str_of_from_str row.state from p);
              to_text = h.to_text;
              path = step {b = to} (rw id l) (rw (← at) h.path);
            }
        | inr (n, e) ↦ record {
          old = x;
          old_in = x_in;
          same_task = rw (← e) h.same_task;
          from = h.from;
          to = h.to;
          from_text = rw (← e) h.from_text;
          to_text = h.to_text;
          path = h.path;
        }
      ]

pub TaskSteps-History :
    {rows rows' : List TaskRuntimeRow} (r : TaskRuntimeRow)
    → TaskSteps rows rows'
    → TableOk rows
    → In r rows'
    → History rows r
TaskSteps-History {rows} r done o m =
    let ok_r = All-In RowOk rows o.consistent r m in
    record {
      old = r;
      old_in = m;
      same_task = refl;
      from = ok_r.state;
      to = ok_r.state;
      from_text = ok_r.text;
      to_text = ok_r.text;
      path = stop;
    }
TaskSteps-History {rows} r (write t row from to c b now f p l fit rest) o m =
    let o' = TaskSteps-TableOk (write t row from to c b now f p l fit done) o in
    History-write t row from to c b now f p l r o (TaskSteps-History r rest o' m)

-- A settled row is the same row after any run.
pub TaskSteps-settled :
    {rows rows' : List TaskRuntimeRow} (r : TaskRuntimeRow) (s : TaskState)
    → TaskSteps rows rows'
    → TableOk rows
    → In r rows
    → r.state ≡ TaskState.as_str s
    → IsTerminal s
    → In r rows'
TaskSteps-settled r s done o m e h = m
TaskSteps-settled {rows} r s (write t row from to c b now f p l fit rest) o m e h =
    TaskSteps-settled r s rest (TaskSteps-TableOk (write t row from to c b now f p l fit done) o)
      (In-write_row_ne t (set_state to c b now) r rows m λ q.
        let same : row ≡ r =
          Unique-In rows row r o.unique (find-In t rows f).0 m ((find-In t rows f).1 ∙ sym q) in
        let at : s ≡ from = ground (arith, same, e, p, from_str-as_str s) in
        terminal_no_step t from to (rw (← at) h) l)
      e h
