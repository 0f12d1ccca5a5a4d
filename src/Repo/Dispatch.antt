-- ===== src/Repo/Dispatch.antt =====
-- src/repo/dispatch.rs: the five inserts of a new spec in one transaction. The columns `created_at`
-- and `trigger_meta` are not kept in the store.
pub mod Tasks
pub mod Deps
pub mod Atomic
pub mod Stored
use Prim.Native.String.{◌++◌ as text_append}
use boi.Prelude.{
  String, List, [], ◌∷◌, ◌++◌, ◌&&◌, Option, Result, ok, err, any, contains, concat, if◌then◌else◌,
}
use boi.Types.Ids.{SpecId, TaskId}
use boi.Repo.Exec.{pure, ◌>>=◌, ◌>>◌}
use boi.Repo.Db.{has_version, dispatch, Db, Repo, RepoError, duplicate, sqlx, TaskDepRow}
use boi.Repo.TaskRuntime
use boi.Repo.TaskRuntime.{insert_task}
use boi.Repo.SpecRuntime
use boi.Repo.SpecRuntime.{initial_row}
use boi.Repo.SpecVersions.{version_row}
use boi.Types.Context.{Snapshot}
use boi.Repo.TaskDeps.{is_edge}

pub record DispatchTask : Type 0 where
  pub task_id : TaskId
  pub task_ref : Option String

pub record DispatchDep : Type 0 where
  pub task_id : TaskId
  pub depends_on : TaskId

pub record DispatchRows : Type 0 where
  pub spec_id : SpecId
  pub snapshot : Snapshot
  pub tasks : List DispatchTask
  pub deps : List DispatchDep

-- A primary key that is taken is `Duplicate`; a foreign key that is not there is `Sqlx`.
unfoldable pub insert_spec : SpecId → Repo (Unit {0})
insert_spec spec_id db =
    if contains db.specs spec_id
    then (err (duplicate (concat ("spec " ∷ spec_id ∷ " already exists" ∷ []))), db)
    else (ok tt, record db { specs = db.specs ++ spec_id ∷ [] })

unfoldable pub insert_version : SpecId → Snapshot → Repo (Unit {0})
insert_version spec_id snapshot db =
    if has_version spec_id 1 db
    then (err (duplicate (concat ("spec " ∷ spec_id ∷ " version 1 already exists" ∷ []))), db)
    else if contains db.specs spec_id
    then (
      ok tt,
      record db {
        spec_versions = db.spec_versions ++ version_row spec_id 1 snapshot dispatch ∷ [];
      },
    )
    else (err sqlx, db)

unfoldable pub insert_runtime : SpecId → Repo (Unit {0})
insert_runtime spec_id db =
    if any (SpecRuntime.has_id spec_id) db.spec_runtime
    then (err (duplicate (concat ("spec_runtime for " ∷ spec_id ∷ " already exists" ∷ []))), db)
    else if contains db.specs spec_id && has_version spec_id 1 db
    then (ok tt, record db { spec_runtime = db.spec_runtime ++ initial_row spec_id 1 ∷ [] })
    else (err sqlx, db)

-- The statement on `task_runtime` is the one of `insert_task`.
unfoldable pub insert_tasks : SpecId → List DispatchTask → Repo (Unit {0})
insert_tasks spec_id [] = pure tt
insert_tasks spec_id (task ∷ tasks) = do
  insert_task task.task_id spec_id task.task_ref
  insert_tasks spec_id tasks

abbrev pub dep_row : DispatchDep → TaskDepRow
dep_row dep = record { task_id = dep.task_id; depends_on = dep.depends_on }

unfoldable pub insert_dep : DispatchDep → Repo (Unit {0})
insert_dep dep db =
    if any (is_edge dep.task_id dep.depends_on) db.task_deps
    then (
      err (
          duplicate (
            concat
              ("task_deps edge " ∷ dep.task_id ∷ " → " ∷ dep.depends_on ∷ " already exists" ∷ []))),
      db,
    )
    else if any (TaskRuntime.has_id dep.task_id) db.task_runtime
        && any (TaskRuntime.has_id dep.depends_on) db.task_runtime
    then (ok tt, record db { task_deps = db.task_deps ++ dep_row dep ∷ [] })
    else (err sqlx, db)

unfoldable pub insert_deps : List DispatchDep → Repo (Unit {0})
unfolding insert_dep
insert_deps [] = pure tt
insert_deps (dep ∷ deps) = insert_dep dep >> insert_deps deps

-- `insert_dispatch_inner` between `begin` and `commit`.
unfoldable pub inserts : DispatchRows → Repo (Unit {0})
unfolding insert_spec insert_version insert_runtime insert_tasks insert_deps
inserts rows = do
  insert_spec rows.spec_id
  insert_version rows.spec_id rows.snapshot
  insert_runtime rows.spec_id
  insert_tasks rows.spec_id rows.tasks
  insert_deps rows.deps

abbrev pub commit : Db → Result RepoError (Unit {0}) → Db → Result RepoError (Unit {0}) × Db
commit before (ok a) after = (ok a, after)
commit before (err e) after = (err e, before)

-- A transaction that is dropped on an error is rolled back.
abbrev pub transaction : Repo (Unit {0}) → Repo (Unit {0})
transaction m db = let (r, after) = m db in commit db r after

unfoldable pub insert_dispatch : DispatchRows → Repo (Unit {0})
unfolding inserts
insert_dispatch rows = transaction (inserts rows)
