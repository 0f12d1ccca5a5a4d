-- ===== src/Repo/Clean.antt =====
-- src/repo/clean.rs: the cascade that deletes a spec. Each foreign key is `ON DELETE RESTRICT`,
-- which refuses a row as soon as it is deleted while another one refers to it; the rows of
-- `decisions`, which refer to each other, are deleted one by one, in the order of the table. The
-- counts of the report are left out.
pub mod Cleaned
pub mod Deleted
use boi.Prelude.{
  ℕ, String, List, [], ◌∷◌, Bool, true, false, not, ◌&&◌, ◌||◌, Option, none, some, Result, ok, err,
  ◌==◌, any, filter, map, contains, if◌then◌else◌,
}
use boi.Types.Ids.{SpecId, DecisionId}
use boi.Types.SpecStatus
use boi.Types.SpecStatus.{SpecStatus}
use boi.Types.TaskState.{ParseStateError}
use boi.Types.Decision.{DecisionRecord}
use boi.Repo.Exec.{pure, lift, ◌>>=◌, ◌>>◌}
use boi.Repo.Db.{
  Db, Repo, RepoError, sqlx, not_found, spec_not_terminal, TaskRuntimeRow, TaskDepRow, PhaseRunRow,
  SpecRuntimeRow, SpecVersionRow,
}
use boi.Repo.SpecRuntime.{fetch}
use boi.Repo.Dispatch.{transaction}

abbrev pub refers : Option String → String → Bool
refers none id = false
refers (some x) id = x == id

-- One row of `decisions`.
unfoldable pub delete_decision : DecisionId → Repo (Unit {0})
delete_decision id db =
    if any (λ (d : DecisionRecord). refers d.supersedes id) db.decisions
    then (err sqlx, db)
    else (ok tt, record db { decisions = filter (λ d. not (d.id == id)) db.decisions })

unfoldable pub delete_decisions : List DecisionId → Repo (Unit {0})
unfolding delete_decision
delete_decisions [] = pure tt
delete_decisions (id ∷ ids) = delete_decision id >> delete_decisions ids

abbrev pub decisions_of : SpecId → Db → List DecisionId
decisions_of s db = map (λ (d : DecisionRecord). d.id) (filter (λ d. d.spec_id == s) db.decisions)

abbrev pub runs_of : SpecId → Db → List String
runs_of s db = map (λ (r : PhaseRunRow). r.id) (filter (λ r. r.spec_id == s) db.phase_runs)

abbrev pub tasks_of : SpecId → Db → List String
tasks_of s db =
    map (λ (r : TaskRuntimeRow). r.task_id) (filter (λ r. r.spec_id == s) db.task_runtime)

abbrev pub refers_in : Option String → List String → Bool
refers_in none ids = false
refers_in (some x) ids = contains ids x

unfoldable pub delete_phase_runs : SpecId → Repo (Unit {0})
delete_phase_runs s db =
    if any (λ (d : DecisionRecord). refers_in d.phase_run_id (runs_of s db)) db.decisions
    then (err sqlx, db)
    else (ok tt, record db { phase_runs = filter (λ r. not (r.spec_id == s)) db.phase_runs })

unfoldable pub delete_task_deps : SpecId → Repo (Unit {0})
delete_task_deps s db = (
  ok tt,
  record db {
    task_deps =
        filter
          (λ (e : TaskDepRow).
            not (contains (tasks_of s db) e.task_id || contains (tasks_of s db) e.depends_on))
          db.task_deps;
  },
)

abbrev pub task_in_use : SpecId → Db → Bool
task_in_use s db =
    any (λ (r : PhaseRunRow). refers_in r.task_id (tasks_of s db)) db.phase_runs
    || any
        (λ (e : TaskDepRow).
          contains (tasks_of s db) e.task_id || contains (tasks_of s db) e.depends_on)
        db.task_deps

unfoldable pub delete_task_runtime : SpecId → Repo (Unit {0})
delete_task_runtime s db =
    if task_in_use s db
    then (err sqlx, db)
    else (ok tt, record db { task_runtime = filter (λ r. not (r.spec_id == s)) db.task_runtime })

unfoldable pub delete_spec_runtime : SpecId → Repo (Unit {0})
delete_spec_runtime s db =
    (ok tt, record db { spec_runtime = filter (λ r. not (r.spec_id == s)) db.spec_runtime })

unfoldable pub delete_spec_versions : SpecId → Repo (Unit {0})
delete_spec_versions s db =
    if any (λ (r : PhaseRunRow). r.spec_id == s) db.phase_runs
      || any (λ (r : SpecRuntimeRow). r.spec_id == s) db.spec_runtime
    then (err sqlx, db)
    else (ok tt, record db { spec_versions = filter (λ r. not (r.spec_id == s)) db.spec_versions })

-- A row that refers to the spec.
abbrev pub still_there : SpecId → Db → Bool
still_there s db =
    any (λ (d : DecisionRecord). d.spec_id == s) db.decisions
    || any (λ (r : PhaseRunRow). r.spec_id == s) db.phase_runs
    || any (λ (r : TaskRuntimeRow). r.spec_id == s) db.task_runtime
    || any (λ (r : SpecRuntimeRow). r.spec_id == s) db.spec_runtime
    || any (λ (r : SpecVersionRow). r.spec_id == s) db.spec_versions

unfoldable pub delete_specs : SpecId → Repo (Unit {0})
delete_specs s db =
    if still_there s db
    then (err sqlx, db)
    else (ok tt, record db { specs = filter (λ x. not (x == s)) db.specs })

unfoldable pub clean_spec_cascade_inner : SpecId → Repo (Unit {0})
unfolding delete_decisions delete_phase_runs delete_task_deps delete_task_runtime
    delete_spec_runtime delete_spec_versions delete_specs
clean_spec_cascade_inner s db =
    (do
      delete_decisions (decisions_of s db)
      delete_phase_runs s
      delete_task_deps s
      delete_task_runtime s
      delete_spec_runtime s
      delete_spec_versions s
      delete_specs s)
      db

unfoldable pub clean_spec_forced : SpecId → Repo (Unit {0})
unfolding clean_spec_cascade_inner
clean_spec_forced s = transaction (clean_spec_cascade_inner s)

abbrev pub parsed_status : Result ParseStateError SpecStatus → Result RepoError SpecStatus
parsed_status (ok s) = ok s
parsed_status (err e) = err (not_found "corrupt status")

abbrev pub guarded : SpecId → String → SpecStatus → Repo (Unit {0})
guarded s status SpecStatus.queued = lift (err (spec_not_terminal s status))
guarded s status SpecStatus.running = lift (err (spec_not_terminal s status))
guarded s status _ = clean_spec_forced s

unfoldable pub clean_spec : SpecId → Repo (Unit {0})
unfolding clean_spec_forced
clean_spec s = do
  row ← fetch s
  parsed ← lift (parsed_status (SpecStatus.from_str row.status))
  guarded s row.status parsed
