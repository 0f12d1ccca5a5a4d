-- ===== src/Routing.antt =====
-- src/service/routing.rs: what runs next after a phase's verdict.
pub mod Task
pub mod Validate
pub mod Counters
pub mod Charge
pub mod Budget
pub mod SideChain
pub mod Valid
pub mod Targets
pub mod TaskTargets
pub mod SpecCounters
pub mod SpecBudget
use Prim.Native.String.{◌++◌ as text_append}
use boi.Prelude.{
  ℕ, String, List, [], ◌∷◌, Bool, true, false, not, ◌&&◌, ◌||◌, Option, none, some, Result, ok, err,
  ◌==◌, ltb, if◌then◌else◌,
}
use boi.Types.Ids.{TaskId, SpecId}
use boi.Types.Reasons.{
  ErrorWhyFix, BlockedReason, cap_exceeded, merge_conflict, workspace_unclean, manual,
  FailureReason, spec_review_exhausted, preflight_failed,
}
use boi.Types.Verdict.{VerdictOutcome, WorkerVerdict}
use boi.Config.Phase.{
  PhaseDef, PhaseKind, worker, deterministic, VerdictTag, RouteRule, Phases, phase_named, rule_for,
}
use boi.Config.Pipeline.{PipelinePhase, PipelineDef, phase, tasks}
use boi.Repo.Exec.{Exec, pure, fail, lift, convert, ◌>>=◌}
use boi.Repo.Db.{Db, RepoError}
use boi.Repo.TaskRuntime
use boi.Repo.TaskRuntime.{IterationCounter}
use boi.Repo.SpecRuntime
use boi.Repo.SpecRuntime.{SpecIterationCounter}
use boi.Adjustment
use boi.Adjustment.{
  AdjustmentError, AdjustmentRoute, cap_task_adjust, is_side_chain_phase, clamp_u32,
}

pub data RoutingError : Type 0 where
  unknown_phase : String → RoutingError
  no_redo_route : String → RoutingError
  malformed_pipeline : String → String → RoutingError  -- pipeline, detail
  adjustment : AdjustmentError → RoutingError
  repo : RepoError → RoutingError

abbrev pub cap_plan_critique : ℕ
cap_plan_critique = 3

abbrev pub cap_execute_review : ℕ
cap_execute_review = 3

abbrev pub cap_spec_review : ℕ
cap_spec_review = 2

abbrev pub merge_to_integration : String
merge_to_integration = "merge_to_integration"

pub data SpecRoute : Type 0 where
  run_spec_phase : String → SpecRoute
  fan_out_tasks spec_done halt : SpecRoute
  spec_cap_exceeded : FailureReason → SpecRoute

pub data TaskAction : Type 0 where
  run_phase : String → TaskAction
  task_passed : TaskAction
  task_blocked : BlockedReason → TaskAction
  halt : TaskAction

abbrev pub Routed : Type 0 → Type 0
Routed A = Exec Db RoutingError A

unfoldable pub counter_for : String → Option IterationCounter
counter_for name =
    if name == "write_red_tests" || name == "execute" || name == "review"
    then some IterationCounter.execute_review
    else if name == "plan" || name == "critique_plan"
    then some IterationCounter.plan_critique
    else none

unfoldable pub cap_for : IterationCounter → ℕ
cap_for IterationCounter.plan_critique = cap_plan_critique
cap_for IterationCounter.task_adjust = cap_task_adjust
cap_for IterationCounter.execute_review = cap_execute_review
cap_for IterationCounter.spec_review = cap_spec_review

unfoldable pub spec_counter_for : String → Option SpecIterationCounter
spec_counter_for name =
    if name == "plan" || name == "critique_plan"
    then some SpecIterationCounter.plan_critique
    else if name == "review"
    then some SpecIterationCounter.spec_review
    else none

unfoldable pub spec_cap_for : SpecIterationCounter → ℕ
spec_cap_for SpecIterationCounter.plan_critique = cap_plan_critique
spec_cap_for SpecIterationCounter.spec_review = cap_spec_review

unfoldable pub spec_cap_failure : SpecIterationCounter → ℕ → WorkerVerdict → FailureReason
spec_cap_failure SpecIterationCounter.spec_review count verdict =
    spec_review_exhausted count verdict.synopsis
spec_cap_failure SpecIterationCounter.plan_critique count verdict = preflight_failed (
    text_append
      "the plan ↔ critique_plan loop exceeded its cap of 3 iterations without converging: "
      verdict.synopsis)

abbrev pub next_of : Option RouteRule → Option String
next_of (some rule) = rule.next
next_of none = none

unfoldable pub route_next : PhaseDef → VerdictTag → Option String
route_next def tag = next_of (rule_for def.on tag)

abbrev pub names_phase : String → PipelinePhase → Bool
names_phase name (phase n) = n == name
names_phase name tasks = false

unfoldable pub is_spec_phase_in : String → List PipelinePhase → Bool
is_spec_phase_in name [] = false
is_spec_phase_in name (p ∷ ps) = names_phase name p || is_spec_phase_in name ps

unfoldable pub is_spec_phase : String → PipelineDef → Bool
unfolding is_spec_phase_in
is_spec_phase name p = is_spec_phase_in name p.spec_phases

abbrev pub entry_route : List PipelinePhase → SpecRoute
entry_route [] = spec_done
entry_route (phase next ∷ _) = run_spec_phase next
entry_route (tasks ∷ _) = fan_out_tasks

-- The entry behind the first one that names the phase.
unfoldable pub next_in : String → List PipelinePhase → SpecRoute
next_in name [] = SpecRoute.halt
next_in name (p ∷ ps) =
    let rest = next_in name ps in if names_phase name p then entry_route ps else rest

unfoldable pub next_spec_phase : String → PipelineDef → SpecRoute
unfolding next_in
next_spec_phase name p = next_in name p.spec_phases

-- Where a phase that is to be redone goes: its own route if that is a spec phase, else itself.
abbrev pub redo_target : String → Option String → PipelineDef → String
redo_target name none p = name
redo_target name (some target) p = if is_spec_phase target p then target else name

abbrev pub fail_route : Option String → PipelineDef → SpecRoute
fail_route none p = SpecRoute.halt
fail_route (some next) p = if is_spec_phase next p then run_spec_phase next else SpecRoute.halt

unfoldable pub spec_repo_increment : SpecId → SpecIterationCounter → Routed ℕ
spec_repo_increment spec_id counter = do
  raw ← convert repo (SpecRuntime.increment_iteration spec_id counter)
  pure (clamp_u32 raw)

unfoldable pub redo_spec :
    SpecId → Option SpecIterationCounter → String → WorkerVerdict → Routed SpecRoute
redo_spec spec_id none next verdict = pure (run_spec_phase next)
redo_spec spec_id (some counter) next verdict = do
  new_count ← spec_repo_increment spec_id counter
  if ltb (spec_cap_for counter) new_count
      then pure (spec_cap_exceeded (spec_cap_failure counter new_count verdict))
      else pure (run_spec_phase next)

unfoldable pub route_spec_outcome :
    SpecId → String → VerdictOutcome → WorkerVerdict → PipelineDef → PhaseDef → Routed SpecRoute
route_spec_outcome spec_id name (VerdictOutcome.passing _) verdict p def =
    pure (next_spec_phase name p)
route_spec_outcome spec_id name (VerdictOutcome.redo _) verdict p def =
    redo_spec spec_id (spec_counter_for name) (redo_target name (route_next def VerdictTag.redo) p)
      verdict
route_spec_outcome spec_id name (VerdictOutcome.fail _ _ _) verdict p def =
    pure (fail_route (route_next def VerdictTag.fail) p)
route_spec_outcome spec_id name (VerdictOutcome.blocked _ _) verdict p def = pure SpecRoute.halt
route_spec_outcome spec_id name VerdictOutcome.canceled verdict p def = pure SpecRoute.halt

abbrev pub known_or : Option PhaseDef → String → Result RoutingError PhaseDef
known_or (some def) name = ok def
known_or none name = err (unknown_phase name)

unfoldable pub route_spec :
    SpecId → String → WorkerVerdict → PipelineDef → Phases → Routed SpecRoute
unfolding route_spec_outcome
route_spec spec_id name verdict p phases = do
  def ← lift (known_or (phase_named phases name) name)
  route_spec_outcome spec_id name verdict.outcome verdict p def
