-- ===== src/Repo/Dispatch/Tasks.antt =====
-- src/repo/dispatch.rs: when the loop over the tasks inserts all of them.
use mathlib.Core.List.{append_assoc, append-nil}
use boi.Prelude.{
  String, List, [], ◌∷◌, ◌++◌, true, false, ok, ◌≡◌, ◌↔◌, subst, inl, inr, refl, sym, ap, In, any,
  contains, map, Bool-cases, contains-In, In-contains,
}
use boi.Types.Ids.{SpecId, TaskId}
use boi.Repo.Db.{Db, TaskRuntimeRow}
use boi.Repo.TaskRuntime.{has_id, new_row, insert_task}
use boi.Repo.TaskRuntime.Rows.{ids}
use boi.Repo.Outcome.{
  Outcome, done_if, Outcome-then, Outcome-same, Outcome-weaken, Outcome-refuse, Outcome-require,
}
use boi.Repo.Dispatch.{DispatchTask, insert_tasks}

-- No task has an id that is known, or that an earlier one has.
abbrev pub NewIds : List String → List DispatchTask → Type 0
NewIds known [] = Unit
NewIds known (task ∷ tasks) = (¬ In task.task_id known) × NewIds (known ++ task.task_id ∷ []) tasks

abbrev pub task_row : SpecId → DispatchTask → TaskRuntimeRow
task_row spec_id task = new_row task.task_id spec_id task.task_ref

pub any_id : (x : TaskId) (rows : List TaskRuntimeRow) → any (has_id x) rows ≡ contains (ids rows) x
any_id x [] = refl
any_id x (row ∷ rows) = rw (any_id x rows)

pub ids-append : (rows more : List TaskRuntimeRow) → ids (rows ++ more) ≡ ids rows ++ ids more
ids-append [] more = refl
ids-append (row ∷ rows) more = ap (λ t. row.task_id ∷ t) (ids-append rows more)

abbrev pub with_tasks : SpecId → List DispatchTask → Db → Db
with_tasks spec_id tasks db = record db {
  task_runtime = db.task_runtime ++ map (task_row spec_id) tasks;
}

-- The table after the first row and then the others.
rows_step :
    (spec_id : SpecId) (task : DispatchTask) (tasks : List DispatchTask) (db : Db)
    → with_tasks spec_id tasks (with_tasks spec_id (task ∷ []) db)
      ≡ with_tasks spec_id (task ∷ tasks) db
rows_step spec_id task tasks db =
    ap (λ rows. record db { task_runtime = rows })
      (append_assoc db.task_runtime (task_row spec_id task ∷ []) (map (task_row spec_id) tasks))

pub absent-In :
    (x : TaskId) (rows : List TaskRuntimeRow) → (any (has_id x) rows ≡ false) ↔ (¬ In x (ids rows))
absent-In x rows = rw (any_id x rows) (
  λ h i. cc (h, In-contains (ids rows) x i),
  λ h. elim (Bool-cases (contains (ids rows) x)) [
    | inl y ↦ absurd (h (contains-In (ids rows) x y))
    | inr n ↦ n
  ],
)

one_task :
    (spec_id : SpecId) (task : DispatchTask) (db : Db)
    → contains db.specs spec_id ≡ true
    → Outcome
        (¬ In task.task_id (ids db.task_runtime))
        (with_tasks spec_id (task ∷ []) db)
        (insert_task task.task_id spec_id task.task_ref db)
unfolding insert_task
one_task spec_id task db known =
    Outcome-weaken (λ (p, _). p, λ p. (p, known))
      (Outcome-refuse _ _ db _ (absent-In task.task_id db.task_runtime)
        (Outcome-require (contains db.specs spec_id) _ db (λ h. h, λ h. h)))

-- The loop inserts all tasks exactly if their ids are new, for a spec that is stored.
pub insert_tasks-NewIds :
    (spec_id : SpecId) (tasks : List DispatchTask) (db : Db)
    → contains db.specs spec_id ≡ true
    → Outcome
        (NewIds (ids db.task_runtime) tasks)
        (with_tasks spec_id tasks db)
        (insert_tasks spec_id tasks db)
unfolding insert_tasks
insert_tasks-NewIds spec_id [] db known =
    subst (λ rows. Outcome Unit (record db { task_runtime = rows }) (ok tt, db))
      (sym (append-nil db.task_runtime)) (done_if tt)
insert_tasks-NewIds spec_id (task ∷ tasks) db known =
    let rest = insert_tasks-NewIds spec_id tasks (with_tasks spec_id (task ∷ []) db) known in
    let e = ids-append db.task_runtime (task_row spec_id task ∷ []) in
    Outcome-then (with_tasks spec_id (task ∷ []) db) _
      (insert_task task.task_id spec_id task.task_ref) (insert_tasks spec_id tasks) db
      (one_task spec_id task db known)
      (Outcome-same (rows_step spec_id task tasks db) (
        Outcome-weaken (subst (λ ks. NewIds ks tasks) e, subst (λ ks. NewIds ks tasks) (sym e))
          rest))
