-- ===== src/Repo/Db.antt =====
-- The tables (migrations/0001_initial.sql to 0003) as a record of lists of rows, and the errors of
-- src/repo/db.rs. Columns of type JSON hold the value that is stored there, since the program
-- writes and reads them by the same serde types. The statements are those of the source; a driver
-- failure (a lost connection, a full disk) is not modelled, so `sqlx` stands for a constraint that
-- the schema refuses.
use boi.Types.Context.{Snapshot}
use boi.Prelude.{Bool, ◌==◌, ◌&&◌, eqb, any, none, some, Result, ok, err, ℕ, String, List, Option}
use boi.Types.Reasons.{BlockedReason, CancellationReason, FailureReason}
use boi.Types.Verdict.{Evidence, WorkerVerdict}
use boi.Types.Decision.{DecisionRecord}
use boi.Repo.Exec.{Exec}

pub data RepoError : Type 0 where
  duplicate : String → RepoError
  id_exhausted : ℕ → ℕ → RepoError  -- prefix, attempts
  not_found : String → RepoError
  spec_not_terminal : String → String → RepoError  -- spec_id, status
  sqlx : RepoError

pub data TerminalReason : Type 0 where
  failure : FailureReason → TerminalReason
  cancellation : CancellationReason → TerminalReason

pub record TaskRuntimeRow : Type 0 where
  pub task_id : String
  pub spec_id : String
  pub ref : Option String
  pub state : String
  pub blocked_reason : Option BlockedReason
  pub cancellation_reason : Option CancellationReason
  pub current_phase : Option String
  pub evidence : Option Evidence
  pub iterations_plan_critique : ℕ
  pub iterations_task_adjust : ℕ
  pub iterations_execute_review : ℕ
  pub iterations_spec_review : ℕ
  pub worktree_path : Option String
  pub branch_ref : Option String
  pub started_at : Option ℕ
  pub completed_at : Option ℕ

pub record SpecRuntimeRow : Type 0 where
  pub spec_id : String
  pub current_version : ℕ
  pub status : String
  pub failure_reason : Option FailureReason
  pub cancellation_reason : Option CancellationReason
  pub started_at : Option ℕ
  pub completed_at : Option ℕ
  pub iterations_plan_critique : ℕ
  pub iterations_spec_review : ℕ

pub record TaskDepRow : Type 0 where
  pub task_id : String
  pub depends_on : String

pub record PhaseRunRow : Type 0 where
  pub id : String
  pub spec_id : String
  pub task_id : Option String
  pub phase : String
  pub phase_iteration : ℕ
  pub spec_version : ℕ
  pub provider : String
  pub worker_id : Option String
  pub files_touched : List String
  pub synopsis : String
  pub verdict : Option WorkerVerdict
  pub last_heartbeat_at : Option ℕ
  pub started_at : ℕ
  pub completed_at : Option ℕ
  pub tokens_in : Option ℕ
  pub tokens_out : Option ℕ

-- What caused a version of a spec.
pub data VersionTrigger : Type 0 where
  dispatch plan_revised : VersionTrigger

pub record SpecVersionRow : Type 0 where
  pub spec_id : String
  pub version : ℕ
  pub snapshot : Snapshot
  pub trigger : VersionTrigger

-- Of `specs` only the key is kept.
pub record Db : Type 0 where
  pub specs : List String
  pub spec_versions : List SpecVersionRow
  pub spec_runtime : List SpecRuntimeRow
  pub task_runtime : List TaskRuntimeRow
  pub task_deps : List TaskDepRow
  pub phase_runs : List PhaseRunRow
  pub decisions : List DecisionRecord

-- Statements on the store: `Result<A, RepoError>` behind a pool.
abbrev pub Repo : Type 0 → Type 0
Repo A = Exec Db RepoError A

-- `fetch_optional` with the `ok_or_else` behind it.
abbrev pub or_missing : {A : Type 0} → Option A → String → Result RepoError A
or_missing none missing = err (not_found missing)
or_missing (some a) missing = ok a

abbrev pub is_version : String → ℕ → SpecVersionRow → Bool
is_version spec_id version row = row.spec_id == spec_id && eqb row.version version

abbrev pub has_version : String → ℕ → Db → Bool
has_version spec_id version db = any (is_version spec_id version) db.spec_versions
