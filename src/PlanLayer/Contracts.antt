-- ===== src/PlanLayer/Contracts.antt =====
-- src/service/plan_layer.rs: the tasks that a revision adds, in the snapshot and in the table.
use boi.Prelude.{
  List, [], ◌∷◌, none, Result, ok, err, ◌≡◌, ◌↔◌, ◌⊎◌, inl, inr, refl, ◌∙◌, arith, map, In,
  Bool-cases, contains,
}
use boi.Types.Ids.{SpecId, TaskId}
use boi.Types.TaskState
use boi.Types.TaskState.{TaskState}
use boi.Types.Plan.{PlanEdit}
use boi.Types.Context.{TaskContract}
use boi.Repo.Exec.{continue, convert, ◌>>=◌}
use boi.Repo.Db.{Db, TaskRuntimeRow}
use boi.Repo.TaskRuntime.{new_row}
use boi.Repo.TaskDeps.{add_dep, remove_dep, deps_of}
use boi.PlanLayer.{
  PlanLayerError, repo, Plan, Contracts, add_contracts, add_deps, drop_deps, retarget,
}

abbrev pub keys : Contracts → List TaskId
keys contracts = map (λ (c : TaskId × TaskContract). c.0) contracts

-- The contracts after the edits: those from before, and one for each minted id.
abbrev Added : List PlanEdit → List TaskId → Contracts → Type 0
Added edits ids contracts =
    (after : Contracts) × (add_contracts edits ids contracts ≡ ok after)
    × ((x : TaskId) → In x (keys after) ↔ (In x (keys contracts) ⊎ In x ids))

-- An action that does not touch the table of tasks.
abbrev pub Keeps : {A : Type 0} → Plan A → Type 0
Keeps m = (db : Db) → (m db).1.task_runtime ≡ db.task_runtime

continue-Keeps :
    {A B : Type 0} (r : Result PlanLayerError A) (f : A → Plan B) (db : Db)
    → ((a : A) → Keeps (f a))
    → (continue r f db).1.task_runtime ≡ db.task_runtime
continue-Keeps (ok a) f db h = h a db
continue-Keeps (err e) f db h = refl

bind-Keeps :
    {A B : Type 0} (m : Plan A) (f : A → Plan B)
    → Keeps m
    → ((a : A) → Keeps (f a))
    → Keeps (m >>= f)
bind-Keeps m f a b db = let (r, s) = m db in continue-Keeps (m db).0 f (m db).1 b ∙ a db

pub add_deps-Keeps : (t : TaskId) (deps : List TaskId) → Keeps (add_deps t deps)
unfolding add_deps
add_deps-Keeps t [] db = refl
add_deps-Keeps t (d ∷ deps) db =
    bind-Keeps (convert repo (add_dep t d)) (λ _. add_deps t deps)
      (λ db. unfold add_dep in ground arith) (λ _. add_deps-Keeps t deps) db

drop_deps-Keeps : (t : TaskId) (new olds : List TaskId) → Keeps (drop_deps t new olds)
unfolding drop_deps
drop_deps-Keeps t new [] db = refl
drop_deps-Keeps t new (d ∷ olds) db = elim (Bool-cases (contains new d)) [
  | inl y ↦ rw y (drop_deps-Keeps t new olds db)
  | inr n ↦ rw n (
      bind-Keeps (convert repo (remove_dep t d)) (λ _. drop_deps t new olds)
        (λ db. unfold remove_dep in refl) (λ _. drop_deps-Keeps t new olds) db)
]

pub retarget-Keeps : (t : TaskId) (new : List TaskId) → Keeps (retarget t new)
unfolding retarget
retarget-Keeps t new =
    bind-Keeps (convert repo (deps_of t)) _ (λ db. unfold deps_of in refl)
      (λ current.
        bind-Keeps (drop_deps t new current) (λ _. add_deps t new) (drop_deps-Keeps t new current)
          (λ _. add_deps-Keeps t new))

-- Every row after the action is an old one, or the row of a new task of the spec under one of the
-- ids.
abbrev Grows : {A : Type 0} → SpecId → List TaskId → Plan A → Type 0
Grows s ids m =
    (db : Db) (row : TaskRuntimeRow)
    → In row (m db).1.task_runtime
    → In row db.task_runtime ⊎ ((id : TaskId) × In id ids × (row ≡ new_row id s none))
