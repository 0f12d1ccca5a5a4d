-- ===== src/Adjustment.antt =====
-- src/service/adjustment.rs: the bounded side-chain that proposes and reviews a fix of a task.
use Prim.Native.String.{◌++◌ as text_append}
use boi.Prelude.{
  ℕ, ◌^◌, ◌-◌, String, List, [], ◌∷◌, Bool, false, ◌||◌, Option, none, some, Result, ok, err, ◌==◌,
  ltb, reverse, if◌then◌else◌,
}
use boi.Types.Ids.{TaskId, SpecId, new_spec_id, IdError}
use boi.Types.Reasons.{ErrorWhyFix, BlockedReason, cap_exceeded, manual}
use boi.Types.Verdict.{VerdictOutcome}
use boi.Repo.Exec.{Exec, pure, lift, convert, ◌>>=◌}
use boi.Repo.Db.{Db, RepoError, not_found, PhaseRunRow}
use boi.Repo.TaskRuntime
use boi.Repo.PhaseRuns

abbrev pub cap_task_adjust : ℕ
cap_task_adjust = 3

abbrev pub is_side_chain_phase : String → Bool
is_side_chain_phase phase = "propose_adjustment" == phase || "review_adjustment" == phase

pub data AdjustmentRoute : Type 0 where
  run_phase : String → AdjustmentRoute
  block : BlockedReason → AdjustmentRoute

pub data AdjustmentError : Type 0 where
  repo : RepoError → AdjustmentError

abbrev pub Adjusting : Type 0 → Type 0
Adjusting A = Exec Db AdjustmentError A

-- `u32::try_from(n).unwrap_or(u32::MAX)` of a count that is not negative.
abbrev pub clamp_u32 : ℕ → ℕ
clamp_u32 n = if ltb n (2 ^ 32) then n else 2 ^ 32 - 1

abbrev pub no_detail : ErrorWhyFix
no_detail = record {
  error = "task_adjust cap exceeded";
  why = "the adjustment side-chain ran 3 rounds without resolving the failure";
  fix = "inspect the task's phase history and intervene manually";
}

-- The triple that a verdict carries, if it names one.
abbrev pub failure_detail : VerdictOutcome → Option ErrorWhyFix
failure_detail (VerdictOutcome.fail error why fix) =
    some (record { error = error; why = why; fix = fix })
failure_detail (VerdictOutcome.blocked _ (some detail)) = some detail
failure_detail _ = none

abbrev pub run_of_task : TaskId → PhaseRunRow → Bool
run_of_task task_id run = elim run.task_id [ some t ↦ t == task_id | none ↦ false ]

abbrev pub run_detail : PhaseRunRow → Option ErrorWhyFix
run_detail run = elim run.verdict [ some v ↦ failure_detail v.outcome | none ↦ none ]

-- The loop over the history, newest run first.
unfoldable pub first_detail : TaskId → List PhaseRunRow → ErrorWhyFix
first_detail task_id [] = no_detail
first_detail task_id (run ∷ runs) =
    let rest = first_detail task_id runs in
    if run_of_task task_id run
    then elim (run_detail run) [ some detail ↦ detail | none ↦ rest ]
    else rest

unfoldable pub corrupt_spec : Result IdError SpecId → Result AdjustmentError SpecId
corrupt_spec (ok s) = ok s
corrupt_spec (err e) = err (repo (not_found "corrupt spec id in task_runtime"))

unfoldable pub latest_failure_detail : TaskId → Adjusting ErrorWhyFix
unfolding corrupt_spec
latest_failure_detail task_id = do
  row ← convert repo (TaskRuntime.fetch task_id)
  spec_id ← lift (corrupt_spec (new_spec_id row.spec_id))
  history ← convert repo (PhaseRuns.fetch_history_for_spec spec_id)
  pure (first_detail task_id (reverse history))

-- Counts the round, and runs it or blocks the task.
unfoldable pub enter_side_chain : TaskId → Adjusting AdjustmentRoute
enter_side_chain task_id = do
  count ← convert repo (TaskRuntime.increment_iteration task_id TaskRuntime.task_adjust)
  if ltb cap_task_adjust (clamp_u32 count)
      then (do
        detail ← latest_failure_detail task_id
        pure (block (cap_exceeded "task_adjust" cap_task_adjust detail)))
      else pure (run_phase "propose_adjustment")

abbrev pub route_after_fail : TaskId → Adjusting AdjustmentRoute
route_after_fail task_id = enter_side_chain task_id

abbrev blocked_note : String → Option ErrorWhyFix → String
blocked_note reason none = text_append "review_adjustment blocked the fix: " reason
blocked_note reason (some detail) =
    text_append "review_adjustment blocked the fix: "
      (text_append reason (text_append " — " detail.error))

unfoldable pub route_after_review_adjustment : TaskId → VerdictOutcome → Adjusting AdjustmentRoute
route_after_review_adjustment task_id (VerdictOutcome.passing _) = pure (run_phase "execute")
route_after_review_adjustment task_id (VerdictOutcome.redo _) = enter_side_chain task_id
route_after_review_adjustment task_id (VerdictOutcome.blocked reason detail) =
    pure (block (manual (some (blocked_note reason detail))))
route_after_review_adjustment task_id (VerdictOutcome.fail error why fix) = pure (
    block
      (cap_exceeded "task_adjust" cap_task_adjust (record { error = error; why = why; fix = fix })))
route_after_review_adjustment task_id VerdictOutcome.canceled =
    pure (block (manual (some "phase canceled")))
