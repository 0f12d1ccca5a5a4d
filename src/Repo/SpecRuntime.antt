-- ===== src/Repo/SpecRuntime.antt =====
-- src/repo/spec_runtime.rs: the rows of specs.
use Prim.Native.String.{◌++◌ as text_append}
use boi.Prelude.{
  ℕ, ◌+◌, List, [], ◌∷◌, ◌++◌, Bool, true, false, not, ◌&&◌, ◌||◌, Option, none, some, ok, err,
  ◌==◌, contains, any, all, find, if◌then◌else◌,
}
use boi.Types.Ids.{SpecId}
use boi.Types.Reasons.{CancellationReason, FailureReason}
use boi.Types.SpecStatus
use boi.Types.SpecStatus.{SpecStatus}
use boi.Repo.Exec.{pure, ◌>>=◌, ◌>>◌}
use boi.Repo.TaskRuntime.{coalesce}
use boi.Repo.Db.{
  Repo, duplicate, not_found, sqlx, TerminalReason, failure, cancellation, SpecRuntimeRow,
  or_missing, has_version,
}

pub data SpecIterationCounter : Type 0 where
  plan_critique spec_review : SpecIterationCounter

abbrev pub has_id : SpecId → SpecRuntimeRow → Bool
has_id spec_id row = row.spec_id == spec_id

unfoldable pub write_row :
    SpecId → (SpecRuntimeRow → SpecRuntimeRow) → List SpecRuntimeRow → List SpecRuntimeRow
write_row spec_id f [] = []
write_row spec_id f (row ∷ rows) =
    (if has_id spec_id row then f row else row) ∷ write_row spec_id f rows

-- Both columns of a row; the failure comes first where both are set.
unfoldable pub terminal_reason : SpecRuntimeRow → Option TerminalReason
terminal_reason row = elim row.failure_reason [
  | some f ↦ some (failure f)
  | none ↦ elim row.cancellation_reason [ some c ↦ some (cancellation c) | none ↦ none ]
]

abbrev pub is_some : {A : Type 0} → Option A → Bool
is_some (some _) = true
is_some none = false

-- The CHECK of `spec_runtime`: one reason for each of `failed` and `canceled`, none elsewhere.
abbrev pub status_check : SpecRuntimeRow → Bool
status_check row =
    (row.status == "failed" && is_some row.failure_reason && not (is_some row.cancellation_reason))
    || (row.status == "canceled"
        && is_some row.cancellation_reason
        && not (is_some row.failure_reason))
    || ((row.status == "queued" || row.status == "running" || row.status == "completed")
        && not (is_some row.failure_reason)
        && not (is_some row.cancellation_reason))

abbrev pub initial_row : SpecId → ℕ → SpecRuntimeRow
initial_row spec_id current_version = record {
  spec_id = spec_id;
  current_version = current_version;
  status = SpecStatus.as_str SpecStatus.queued;
  failure_reason = none;
  cancellation_reason = none;
  started_at = none;
  completed_at = none;
  iterations_plan_critique = 0;
  iterations_spec_review = 0;
}

unfoldable pub initialize : SpecId → ℕ → Repo (Unit {0})
initialize spec_id current_version db =
    if any (has_id spec_id) db.spec_runtime
    then (
      err (
          duplicate (text_append "spec_runtime for " (text_append spec_id " already initialized"))),
      db,
    )
    else if contains db.specs spec_id && has_version spec_id current_version db
    then (
      ok tt,
      record db { spec_runtime = db.spec_runtime ++ initial_row spec_id current_version ∷ [] },
    )
    else (err sqlx, db)

abbrev pub failure_of : Option TerminalReason → Option FailureReason
failure_of (some (failure f)) = some f
failure_of _ = none

abbrev pub cancellation_of : Option TerminalReason → Option CancellationReason
cancellation_of (some (cancellation c)) = some c
cancellation_of _ = none

abbrev pub started_stamp : SpecStatus → ℕ → Option ℕ
started_stamp SpecStatus.running now = some now
started_stamp _ now = none

abbrev pub completed_stamp : SpecStatus → ℕ → Option ℕ
completed_stamp SpecStatus.completed now = some now
completed_stamp SpecStatus.failed now = some now
completed_stamp SpecStatus.canceled now = some now
completed_stamp _ now = none

unfoldable pub set_status : SpecStatus → Option TerminalReason → ℕ → SpecRuntimeRow → SpecRuntimeRow
set_status status reason now row = record row {
  status = SpecStatus.as_str status;
  failure_reason = failure_of reason;
  cancellation_reason = cancellation_of reason;
  started_at = coalesce row.started_at (started_stamp status now);
  completed_at = coalesce row.completed_at (completed_stamp status now);
}

-- A row that fails the CHECK refuses the whole UPDATE.
unfoldable pub update_status : SpecId → SpecStatus → Option TerminalReason → ℕ → Repo (Unit {0})
update_status spec_id status reason now db =
    let rows = write_row spec_id (set_status status reason now) db.spec_runtime in
    if not (any (has_id spec_id) db.spec_runtime)
    then (
      err (
          not_found (
            text_append "spec_runtime for "
              (text_append spec_id " (update_status against a missing spec)"))),
      db,
    )
    else if all (λ row. not (has_id spec_id row) || status_check row) rows
    then (ok tt, record db { spec_runtime = rows })
    else (err sqlx, db)

unfoldable pub update_current_version : SpecId → ℕ → Repo (Unit {0})
update_current_version spec_id new_version db =
    if not (any (has_id spec_id) db.spec_runtime)
    then (
      err (
          not_found (
            text_append "spec_runtime for "
              (text_append spec_id " (update_current_version against a missing spec)"))),
      db,
    )
    else if has_version spec_id new_version db
    then (
      ok tt,
      record db {
        spec_runtime =
            write_row spec_id (λ row. record row { current_version = new_version }) db.spec_runtime;
      },
    )
    else (err sqlx, db)

unfoldable pub fetch : SpecId → Repo SpecRuntimeRow
fetch spec_id db = (
  or_missing (find (has_id spec_id) db.spec_runtime) (text_append "spec_runtime for " spec_id),
  db,
)

abbrev pub counter_value : SpecIterationCounter → SpecRuntimeRow → ℕ
counter_value plan_critique row = row.iterations_plan_critique
counter_value spec_review row = row.iterations_spec_review

abbrev pub bump : SpecIterationCounter → SpecRuntimeRow → SpecRuntimeRow
bump plan_critique row = record row { iterations_plan_critique = row.iterations_plan_critique + 1 }
bump spec_review row = record row { iterations_spec_review = row.iterations_spec_review + 1 }

unfoldable pub bump_rows : SpecId → SpecIterationCounter → Repo (Unit {0})
bump_rows spec_id counter db =
    (ok tt, record db { spec_runtime = write_row spec_id (bump counter) db.spec_runtime })

-- The UPDATE ... RETURNING of no row returns nothing, and `fetch` finds nothing either.
unfoldable pub increment_iteration : SpecId → SpecIterationCounter → Repo ℕ
unfolding bump_rows fetch
increment_iteration spec_id counter = do
  bump_rows spec_id counter
  row ← fetch spec_id
  pure (counter_value counter row)
