-- ===== src/Repo/PhaseRuns.antt =====
-- src/repo/phase_runs.rs: the start and the end of a phase run, and a spec's history.
use Prim.Native.String.{◌++◌ as text_append}
use boi.Prelude.{
  ℕ, ◌^◌, ◌-◌, String, List, [], ◌∷◌, ◌++◌, Bool, true, false, ◌&&◌, ◌||◌, Option, none, some, ok,
  err, ◌==◌, any, contains, filter, order_by, ltb, leb, eqb, if◌then◌else◌,
}
use boi.Types.Ids.{TaskId, SpecId, PhaseRunId}
use boi.Types.Verdict.{WorkerVerdict}
use boi.Repo.Db.{has_version, Db, Repo, duplicate, not_found, sqlx, PhaseRunRow}
use boi.Repo.TaskRuntime.{has_id as has_task_id}

abbrev pub i64_max : ℕ
i64_max = 2 ^ 63 - 1

abbrev pub is_open : PhaseRunRow → Bool
is_open row = elim row.completed_at [ none ↦ true | some _ ↦ false ]

abbrev pub has_id : PhaseRunId → PhaseRunRow → Bool
has_id id row = row.id == id

-- SQL's UNIQUE tells two NULLs apart.
abbrev pub same_task : Option TaskId → Option TaskId → Bool
same_task (some a) (some b) = a == b
same_task _ _ = false

-- The two uniqueness constraints of `phase_runs`.
abbrev pub clashes : PhaseRunId → SpecId → Option TaskId → String → ℕ → PhaseRunRow → Bool
clashes id spec_id task_id phase iteration row =
    has_id id row
    || (row.spec_id == spec_id
        && same_task row.task_id task_id
        && row.phase == phase
        && eqb row.phase_iteration iteration)

abbrev pub task_exists : Option TaskId → Db → Bool
task_exists none db = true
task_exists (some t) db = any (has_task_id t) db.task_runtime

abbrev pub start_row :
    PhaseRunId → SpecId → Option TaskId → String → ℕ → ℕ → String → Option String → ℕ → PhaseRunRow
start_row id spec_id task_id phase iteration version provider worker_id now = record {
  id = id;
  spec_id = spec_id;
  task_id = task_id;
  phase = phase;
  phase_iteration = iteration;
  spec_version = version;
  provider = provider;
  worker_id = worker_id;
  files_touched = [];
  synopsis = "";
  verdict = none;
  last_heartbeat_at = none;
  started_at = now;
  completed_at = none;
  tokens_in = none;
  tokens_out = none;
}

unfoldable pub insert_start :
    PhaseRunId
    → SpecId
    → Option TaskId
    → String
    → ℕ
    → ℕ
    → String
    → Option String
    → ℕ
    → Repo (Unit {0})
insert_start id spec_id task_id phase iteration version provider worker_id now db =
    if any (clashes id spec_id task_id phase iteration) db.phase_runs
    then (
      err (
          duplicate (
            text_append "phase_run "
              (text_append id " or its (spec,task,phase,iteration) already exists"))),
      db,
    )
    else if contains db.specs spec_id && task_exists task_id db && has_version spec_id version db
    then (
      ok tt,
      record db {
        phase_runs =
            db.phase_runs
            ++ start_row id spec_id task_id phase iteration version provider worker_id now ∷ [];
      },
    )
    else (err sqlx, db)

unfoldable pub write_row :
    PhaseRunId → (PhaseRunRow → PhaseRunRow) → List PhaseRunRow → List PhaseRunRow
write_row id f [] = []
write_row id f (row ∷ rows) = (if has_id id row then f row else row) ∷ write_row id f rows

unfoldable pub end_row :
    String → WorkerVerdict → List String → ℕ → ℕ → ℕ → PhaseRunRow → PhaseRunRow
end_row synopsis verdict files_touched tokens_in tokens_out completed_at row = record row {
  synopsis = synopsis;
  verdict = some verdict;
  files_touched = files_touched;
  completed_at = some completed_at;
  tokens_in = some tokens_in;
  tokens_out = some tokens_out;
}

-- The token's number is left out of the two overflow messages.
unfoldable pub update_end :
    PhaseRunId → String → WorkerVerdict → List String → ℕ → ℕ → ℕ → Repo (Unit {0})
update_end id synopsis verdict files_touched tokens_in tokens_out completed_at db =
    if ltb i64_max tokens_in
    then (err (not_found (text_append "phase_run " (text_append id ": tokens_in exceeds i64"))), db)
    else if ltb i64_max tokens_out
    then (
      err (not_found (text_append "phase_run " (text_append id ": tokens_out exceeds i64"))),
      db,
    )
    else if any (has_id id) db.phase_runs
    then (
      ok tt,
      record db {
        phase_runs =
            write_row id (end_row synopsis verdict files_touched tokens_in tokens_out completed_at)
              db.phase_runs;
      },
    )
    else (
      err (
          not_found
            (text_append "phase_run " (text_append id " (update_end with no prior insert_start)"))),
      db,
    )

-- `ORDER BY started_at, phase_iteration`.
abbrev pub run_leb : PhaseRunRow → PhaseRunRow → Bool
run_leb a b =
    ltb a.started_at b.started_at
    || (eqb a.started_at b.started_at && leb a.phase_iteration b.phase_iteration)

unfoldable pub fetch_history_for_spec : SpecId → Repo (List PhaseRunRow)
fetch_history_for_spec spec_id db =
    (ok (order_by run_leb (filter (λ row. row.spec_id == spec_id) db.phase_runs)), db)
