-- ===== src/Routing/Counters.antt =====
-- The iteration counters of a task under `increment_iteration`.
use boi.Prelude.{
  ℕ, ◌+◌, String, List, [], ◌∷◌, Bool, true, false, Option, none, some, ok, ◌≡◌, inl, inr, refl,
  arith, ◌==◌, find, if◌then◌else◌, Bool-cases,
}
use boi.Types.Ids.{TaskId}
use boi.Repo.Db.{Db, TaskRuntimeRow}
use boi.Repo.TaskRuntime
use boi.Repo.TaskRuntime.{
  IterationCounter, plan_critique, task_adjust, execute_review, spec_review, has_id, write_row,
  counter_value, bump, increment_iteration,
}
use boi.Bus.Lifecycle.{any_of_find}

abbrev pub value_in : IterationCounter → Option TaskRuntimeRow → Option ℕ
value_in c none = none
value_in c (some row) = some (counter_value c row)

-- What the counter of the task stands at, if the task is stored.
abbrev pub used : IterationCounter → TaskId → Db → Option ℕ
used c t db = value_in c (find (has_id t) db.task_runtime)

abbrev pub spec_in : Option TaskRuntimeRow → Option String
spec_in none = none
spec_in (some row) = some row.spec_id

-- The spec of a stored task.
abbrev pub spec_of : TaskId → Db → Option String
spec_of t db = spec_in (find (has_id t) db.task_runtime)

abbrev pub same_counter : IterationCounter → IterationCounter → Bool
same_counter plan_critique plan_critique = true
same_counter task_adjust task_adjust = true
same_counter execute_review execute_review = true
same_counter spec_review spec_review = true
same_counter _ _ = false

abbrev pub bumped : IterationCounter → TaskId → Db → Db
bumped c t db = record db { task_runtime = write_row t (bump c) db.task_runtime }

bump_id : (c : IterationCounter) (row : TaskRuntimeRow) → (bump c row).task_id ≡ row.task_id
bump_id plan_critique row = refl
bump_id task_adjust row = refl
bump_id execute_review row = refl
bump_id spec_review row = refl

pub find-bumped :
    (c : IterationCounter) (t : TaskId) (rows : List TaskRuntimeRow) (row : TaskRuntimeRow)
    → find (has_id t) rows ≡ some row
    → find (has_id t) (write_row t (bump c) rows) ≡ some (bump c row)
unfolding write_row
find-bumped c t [] row h = cc
find-bumped c t (x ∷ rows) row h = elim (Bool-cases (x.task_id == t)) [
  | inl y ↦ let e : x ≡ row = ground arith in rw (y, bump_id c x, y, e) refl
  | inr n ↦ rw (n, n) (find-bumped c t rows row (rw n at h))
]

bump_spec : (c : IterationCounter) (row : TaskRuntimeRow) → (bump c row).spec_id ≡ row.spec_id
bump_spec plan_critique row = refl
bump_spec task_adjust row = refl
bump_spec execute_review row = refl
bump_spec spec_review row = refl

value-bump :
    (c d : IterationCounter) (row : TaskRuntimeRow)
    → counter_value c (bump d row)
      ≡ (if same_counter c d then counter_value c row + 1 else counter_value c row)
value-bump plan_critique plan_critique row = refl
value-bump plan_critique task_adjust row = refl
value-bump plan_critique execute_review row = refl
value-bump plan_critique spec_review row = refl
value-bump task_adjust plan_critique row = refl
value-bump task_adjust task_adjust row = refl
value-bump task_adjust execute_review row = refl
value-bump task_adjust spec_review row = refl
value-bump execute_review plan_critique row = refl
value-bump execute_review task_adjust row = refl
value-bump execute_review execute_review row = refl
value-bump execute_review spec_review row = refl
value-bump spec_review plan_critique row = refl
value-bump spec_review task_adjust row = refl
value-bump spec_review execute_review row = refl
value-bump spec_review spec_review row = refl

pub value-bump_self :
    (c : IterationCounter) (row : TaskRuntimeRow)
    → counter_value c (bump c row) ≡ counter_value c row + 1
value-bump_self plan_critique row = refl
value-bump_self task_adjust row = refl
value-bump_self execute_review row = refl
value-bump_self spec_review row = refl

module _ (t : TaskId) (db : Db) (row : TaskRuntimeRow)
    (h : find (has_id t) db.task_runtime ≡ some row) where
  pub increment_iteration_lem :
      (c : IterationCounter)
      → increment_iteration t c db ≡ (ok (counter_value c (bump c row)), bumped c t db)
  unfolding increment_iteration TaskRuntime.update_row TaskRuntime.fetch
  increment_iteration_lem c =
      rw (any_of_find t db.task_runtime h, find-bumped c t db.task_runtime row h)

  pub used-bumped :
      (c d : IterationCounter)
      → used c t (bumped d t db)
        ≡ some (if same_counter c d then counter_value c row + 1 else counter_value c row)
  used-bumped c d = rw (find-bumped d t db.task_runtime row h, value-bump c d row)

  pub spec_of-bumped : (c : IterationCounter) → spec_of t (bumped c t db) ≡ some row.spec_id
  spec_of-bumped c = rw (find-bumped c t db.task_runtime row h, bump_spec c row) refl
