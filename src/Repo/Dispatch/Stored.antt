-- ===== src/Repo/Dispatch/Stored.antt =====
-- src/repo/dispatch.rs: the rows of a new spec beside the rows that were stored.
use mathlib.Core.List.{append_assoc, append-nil}
use boi.Prelude.{
  String, List, [], ◌∷◌, ◌++◌, ok, ◌≡◌, ◌≢◌, inl, inr, refl, sym, ap, subst, ◌∙◌, In, All, All-In,
  All-of_In, map, In-append_left, In-append_right, In-of_In-append, In-map, In-of_In-map,
}
use boi.Types.Ids.{SpecId, new_task_id}
use boi.Types.TaskState.{TaskState}
use boi.Repo.Db.{Db, TaskRuntimeRow}
use boi.Repo.TaskRuntime.Rows.{ids, Unique}
use boi.Repo.Dispatch.{DispatchTask, DispatchDep, DispatchRows, dep_row}
use boi.Repo.Dispatch.Tasks.{NewIds, task_row, ids-append}
use boi.Repo.Dispatch.Atomic.{Fresh, with_rows}
use boi.Bus.Invariant.{RowOk}
use boi.Scheduler.Ready.{StoreOk}

pub NewIds-apart :
    (known : List String) (tasks : List DispatchTask)
    → NewIds known tasks
    → (task : DispatchTask) → In task tasks
    → ¬ In task.task_id known
NewIds-apart known [] n task i = λ _. elim i [ ]
NewIds-apart known (x ∷ tasks) (new, n) task (inl e) =
    λ j. new (subst (λ (t : DispatchTask). In t.task_id known) e j)
NewIds-apart known (x ∷ tasks) (new, n) task (inr i) =
    λ j. NewIds-apart (known ++ x.task_id ∷ []) tasks n task i (In-append_left _ known _ j)

module _ {A : Type 0} (f : A → DispatchTask) where
  known_again :
      (known : List String) (x a : A) (xs : List A)
      → NewIds (known ++ (f x).task_id ∷ []) (map f xs)
      → In a xs
      → (f x).task_id ≢ (f a).task_id
  known_again known x a xs n i e =
      NewIds-apart (known ++ (f x).task_id ∷ []) (map f xs) n (f a) (In-map f a xs i)
        (In-append_right _ known _ (inl (sym e)))

  -- New ids are those of one task each.
  pub NewIds-same :
      (known : List String) (xs : List A)
      → NewIds known (map f xs)
      → (a b : A) → In a xs
      → In b xs
      → (f a).task_id ≡ (f b).task_id
      → a ≡ b
  NewIds-same known [] n a b i j e = elim i [ ]
  NewIds-same known (x ∷ xs) (new, n) a b (inl p) (inl q) e = p ∙ sym q
  NewIds-same known (x ∷ xs) (new, n) a b (inl p) (inr j) e =
      absurd (known_again known x b xs n j (ap (λ z. (f z).task_id) (sym p) ∙ e))
  NewIds-same known (x ∷ xs) (new, n) a b (inr i) (inl q) e =
      absurd (known_again known x a xs n i (ap (λ z. (f z).task_id) (sym q) ∙ sym e))
  NewIds-same known (x ∷ xs) (new, n) a b (inr i) (inr j) e =
      NewIds-same (known ++ (f x).task_id ∷ []) xs n a b i j e

pub Unique-snoc :
    (rows : List TaskRuntimeRow) (row : TaskRuntimeRow)
    → Unique rows
    → ¬ In row.task_id (ids rows)
    → Unique (rows ++ row ∷ [])
Unique-snoc [] row u n = (tt, tt)
Unique-snoc (x ∷ rows) row (apart, u) n = (
  All-of_In _ (rows ++ row ∷ []) (λ r i. elim (In-of_In-append r rows (row ∷ []) i) [
    | inl j ↦ All-In _ rows apart r j
    | inr (inl e) ↦ λ p. n (inl (subst (λ (q : TaskRuntimeRow). q.task_id ≡ x.task_id) e p))
    | inr (inr z) ↦ elim z [ ]
  ]),
  Unique-snoc rows row u (λ i. n (inr i)),
)

Unique-with_tasks :
    (s : SpecId) (rows : List TaskRuntimeRow) (tasks : List DispatchTask)
    → Unique rows
    → NewIds (ids rows) tasks
    → Unique (rows ++ map (task_row s) tasks)
Unique-with_tasks s rows [] u n = subst Unique (sym (append-nil rows)) u
Unique-with_tasks s rows (x ∷ tasks) u (new, n) =
    subst Unique (append_assoc rows (task_row s x ∷ []) (map (task_row s) tasks)) (
      Unique-with_tasks s (rows ++ task_row s x ∷ []) tasks (Unique-snoc rows (task_row s x) u new)
        (subst (λ known. NewIds known tasks) (sym (ids-append rows (task_row s x ∷ []))) n))

pub task_row-RowOk : (s : SpecId) (task : DispatchTask) → RowOk (task_row s task)
task_row-RowOk s task = record {
  state = TaskState.not_started;
  text = refl;
  reasons = tt;
  stamps = tt;
}

module _ {κ} {A B : Type 0} (P : B → Type κ) (f : A → B) where
  -- What holds of a list and of each image.
  pub All-with :
      (bs : List B) (xs : List A)
      → All P bs
      → ((a : A) → In a xs → P (f a))
      → All P (bs ++ map f xs)
  All-with bs xs h g = All-of_In P _ (λ b i. elim (In-of_In-append b bs (map f xs) i) [
    | inl j ↦ All-In P bs h b j
    | inr j ↦ let (a, k, e) = In-of_In-map f b xs j in subst P (sym e) (g a k)
  ])

-- A consistent store stays consistent when a fresh payload with valid ids is inserted.
pub with_rows-StoreOk :
    (rows : DispatchRows) (db : Db)
    → StoreOk db
    → Fresh rows db
    → ((task : DispatchTask) → In task rows.tasks → new_task_id task.task_id ≡ ok task.task_id)
    → ((dep : DispatchDep) → In dep rows.deps → new_task_id dep.depends_on ≡ ok dep.depends_on)
    → StoreOk (with_rows rows db)
with_rows-StoreOk rows db o f tasks deps = record {
  tasks = record {
    unique = Unique-with_tasks rows.spec_id db.task_runtime rows.tasks o.tasks.unique f.tasks;
    consistent =
        All-with RowOk (task_row rows.spec_id) db.task_runtime rows.tasks o.tasks.consistent
          (λ t i. task_row-RowOk rows.spec_id t);
  };
  task_ids =
      All-with (λ r. new_task_id r.task_id ≡ ok r.task_id) (task_row rows.spec_id) db.task_runtime
        rows.tasks o.task_ids tasks;
  dep_ids =
      All-with (λ e. new_task_id e.depends_on ≡ ok e.depends_on) dep_row db.task_deps rows.deps
        o.dep_ids deps;
}
