-- ===== src/Routing/Task.antt =====
-- src/service/routing.rs: `route_task`, the routing of a task's phases.
use boi.Prelude.{
  ℕ, String, [], ◌∷◌, Bool, true, false, ◌||◌, Option, none, some, err, ◌==◌, ltb, concat,
  if◌then◌else◌,
}
use boi.Types.Ids.{TaskId}
use boi.Types.Reasons.{
  ErrorWhyFix, BlockedReason, cap_exceeded, merge_conflict, workspace_unclean, manual,
}
use boi.Types.Verdict.{VerdictOutcome, WorkerVerdict}
use boi.Config.Phase.{PhaseDef, PhaseKind, VerdictTag, Phases, phase_named}
use boi.Repo.Exec.{pure, lift, convert, ◌>>=◌}
use boi.Repo.TaskRuntime
use boi.Repo.TaskRuntime.{IterationCounter}
use boi.Adjustment
use boi.Adjustment.{AdjustmentRoute, is_side_chain_phase, clamp_u32}
use boi.Routing.{
  no_redo_route, adjustment, repo, TaskAction, Routed, merge_to_integration, counter_for, cap_for,
  route_next, known_or,
}

unfoldable pub repo_increment : TaskId → IterationCounter → Routed ℕ
repo_increment task_id counter = do
  raw ← convert repo (TaskRuntime.increment_iteration task_id counter)
  pure (clamp_u32 raw)

unfoldable pub adjustment_route_to_action : AdjustmentRoute → TaskAction
adjustment_route_to_action (AdjustmentRoute.run_phase p) = TaskAction.run_phase p
adjustment_route_to_action (AdjustmentRoute.block reason) = TaskAction.task_blocked reason

unfoldable pub loop_name_of : IterationCounter → String
loop_name_of IterationCounter.plan_critique = "plan_critique"
loop_name_of IterationCounter.task_adjust = "task_adjust"
loop_name_of IterationCounter.execute_review = "execute_review"
loop_name_of IterationCounter.spec_review = "spec_review"

abbrev pub redo_text : WorkerVerdict → VerdictOutcome → String
redo_text verdict (VerdictOutcome.redo reason) = reason
redo_text verdict _ = verdict.synopsis

unfoldable pub redo_reason : WorkerVerdict → ErrorWhyFix
redo_reason verdict = record {
  error = "iteration cap exceeded";
  why =
      concat ("the bounded retry loop did not converge: " ∷ redo_text verdict verdict.outcome ∷ []);
  fix = "inspect the phase history and intervene manually";
}

unfoldable pub deterministic_fail_reason : String → ErrorWhyFix → BlockedReason
deterministic_fail_reason name ewf =
    if name == merge_to_integration
    then merge_conflict [] "" "" (concat (name ∷ ": " ∷ ewf.error ∷ " — " ∷ ewf.why ∷ []))
    else workspace_unclean (concat (name ∷ " failed: " ∷ ewf.error ∷ " — " ∷ ewf.why ∷ []))

unfoldable pub worker_fail_reason : String → ErrorWhyFix → BlockedReason
worker_fail_reason name ewf = manual (
    some (
      concat (
        "worker phase `" ∷ name ∷ "` failed with no recovery route: " ∷ ewf.error ∷ " — " ∷ ewf.why
        ∷ " (fix: " ∷ ewf.fix ∷ ")" ∷ [])))

unfoldable pub worker_blocked_reason : String → Option ErrorWhyFix → BlockedReason
worker_blocked_reason reason none = manual (some reason)
worker_blocked_reason reason (some ewf) =
    manual (some (concat (reason ∷ " — " ∷ ewf.error ∷ " (" ∷ ewf.why ∷ ")" ∷ [])))

abbrev pub or_merge : Option String → String
or_merge none = merge_to_integration
or_merge (some next) = next

abbrev pub passing_action : String → PhaseDef → TaskAction
passing_action name def =
    if name == merge_to_integration
    then TaskAction.task_passed
    else TaskAction.run_phase (or_merge (route_next def VerdictTag.passing))

-- A failure on the way into the side chain, or on the way round it.
unfoldable pub into_side_chain : TaskId → Routed TaskAction
into_side_chain task_id = do
  route ← convert adjustment (Adjustment.route_after_fail task_id)
  pure (adjustment_route_to_action route)

abbrev pub counter_or : Option IterationCounter → String → Routed IterationCounter
counter_or none name = lift (err (no_redo_route name))
counter_or (some counter) name = pure counter

-- The action once the counter is bumped.
abbrev pub capped_action : String → IterationCounter → ℕ → WorkerVerdict → TaskAction
capped_action name counter new_count verdict =
    if ltb (cap_for counter) new_count
    then TaskAction.task_blocked
        (cap_exceeded (loop_name_of counter) (cap_for counter) (redo_reason verdict))
    else TaskAction.run_phase name

unfoldable pub redo_loop : TaskId → String → WorkerVerdict → Routed TaskAction
redo_loop task_id name verdict = do
  counter ← counter_or (counter_for name) name
  new_count ← repo_increment task_id counter
  pure (capped_action name counter new_count verdict)

unfoldable pub redo_task : TaskId → String → WorkerVerdict → Routed TaskAction
redo_task task_id name verdict =
    if is_side_chain_phase name then into_side_chain task_id else redo_loop task_id name verdict

abbrev pub is_worker : PhaseKind → Bool
is_worker PhaseKind.worker = true
is_worker PhaseKind.deterministic = false

unfoldable pub fail_task :
    TaskId → String → PhaseDef → ErrorWhyFix → Option String → Routed TaskAction
fail_task task_id name def ewf (some next) =
    if next == "propose_adjustment"
    then into_side_chain task_id
    else pure (TaskAction.run_phase next)
fail_task task_id name def ewf none =
    if is_worker def.kind || is_side_chain_phase name
    then pure (TaskAction.task_blocked (worker_fail_reason name ewf))
    else pure (TaskAction.task_blocked (deterministic_fail_reason name ewf))

unfoldable pub route_task_outcome :
    TaskId → String → VerdictOutcome → WorkerVerdict → PhaseDef → Routed TaskAction
route_task_outcome task_id name (VerdictOutcome.passing _) verdict def =
    pure (passing_action name def)
route_task_outcome task_id name (VerdictOutcome.redo _) verdict def = redo_task task_id name verdict
route_task_outcome task_id name (VerdictOutcome.fail error why fix) verdict def =
    fail_task task_id name def (record { error = error; why = why; fix = fix })
      (route_next def VerdictTag.fail)
route_task_outcome task_id name (VerdictOutcome.blocked reason ewf) verdict def =
    pure (TaskAction.task_blocked (worker_blocked_reason reason ewf))
route_task_outcome task_id name VerdictOutcome.canceled verdict def = pure TaskAction.halt

unfoldable pub route_reviewed : TaskId → VerdictOutcome → Routed TaskAction
route_reviewed task_id outcome = do
  route ← convert adjustment (Adjustment.route_after_review_adjustment task_id outcome)
  pure (adjustment_route_to_action route)

unfoldable pub route_known : TaskId → String → WorkerVerdict → Phases → Routed TaskAction
route_known task_id name verdict phases = do
  def ← lift (known_or (phase_named phases name) name)
  route_task_outcome task_id name verdict.outcome verdict def

unfoldable pub route_task : String → TaskId → WorkerVerdict → Phases → Routed TaskAction
route_task name task_id verdict phases =
    if name == "review_adjustment"
    then route_reviewed task_id verdict.outcome
    else route_known task_id name verdict phases
