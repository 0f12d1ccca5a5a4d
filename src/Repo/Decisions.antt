-- ===== src/Repo/Decisions.antt =====
-- src/repo/decisions.rs: the append-only table of decisions.
use Prim.Native.String.{◌++◌ as text_append}
use boi.Prelude.{
  [], ◌∷◌, ◌++◌, Bool, true, false, not, ◌&&◌, ◌||◌, Option, none, some, ok, err, ◌==◌, any,
  contains, if◌then◌else◌,
}
use boi.Types.Ids.{DecisionId, PhaseRunId}
use boi.Types.Decision.{DecisionRecord, DecisionOrigin, authored, runtime, human}
use boi.Repo.Db.{Db, Repo, duplicate, sqlx}
use boi.Repo.PhaseRuns.{has_id as has_run_id}

-- The primary key, and the partial UNIQUE index on `supersedes`.
abbrev same_supersedes : Option DecisionId → Option DecisionId → Bool
same_supersedes (some a) (some b) = a == b
same_supersedes _ _ = false

abbrev pub clashes : DecisionRecord → DecisionRecord → Bool
clashes d row = row.id == d.id || same_supersedes row.supersedes d.supersedes

-- The CHECK of the table: an authored decision has no phase run, and any other has one.
abbrev pub origin_check : DecisionOrigin → Option PhaseRunId → Bool
origin_check authored none = true
origin_check runtime (some _) = true
origin_check human (some _) = true
origin_check _ _ = false

abbrev pub run_exists : Option PhaseRunId → Db → Bool
run_exists none db = true
run_exists (some r) db = any (has_run_id r) db.phase_runs

abbrev pub superseded_exists : Option DecisionId → Db → Bool
superseded_exists none db = true
superseded_exists (some d) db = any (λ row. row.id == d) db.decisions

-- CHECK constraints come before uniqueness, and foreign keys last.
unfoldable pub insert : DecisionRecord → Repo (Unit {0})
insert d db =
    if not (origin_check d.origin d.phase_run_id)
    then (err sqlx, db)
    else if any (clashes d) db.decisions
    then (
      err (
          duplicate
            (text_append "decision " (text_append d.id " (id or supersedes already used)"))),
      db,
    )
    else if contains db.specs d.spec_id
        && run_exists d.phase_run_id db
        && superseded_exists d.supersedes db
    then (ok tt, record db { decisions = db.decisions ++ d ∷ [] })
    else (err sqlx, db)
