-- ===== src/Examples/Routing.antt =====
-- Routing on a small pipeline: a worker phase that leads to the merge, and the merge.
use boi.Prelude.{
  ◌+◌, ◌<◌, ◌≤◌, String, List, [], ◌∷◌, none, some, ok, ◌≡◌, ◌⊎◌, inl, refl, ◌↔◌, In, each, ltb,
  if◌then◌else◌,
}
use boi.Types.Ids.{new_spec_id}
use boi.Types.Reasons.{ErrorWhyFix, cap_exceeded}
use boi.Types.Verdict.{VerdictOutcome, WorkerVerdict}
use boi.Config.Phase.{PhaseDef, PhaseLevel, PhaseKind, VerdictTag, RouteRule, Phases}
use boi.Config.Pipeline.{phase, tasks, PipelineDef}
use boi.Repo.TaskRuntime.{IterationCounter}
use boi.Routing.{
  TaskAction, counter_for, cap_for, route_next, next_in, next_spec_phase, route_spec,
  run_spec_phase, route_spec_outcome,
}
use boi.Repo.TaskRuntime
use boi.Adjustment
use boi.Routing.Task
use boi.Routing.Task.{route_task}
use boi.Routing.Validate
use boi.Routing.Validate.{validate_pipeline}
use boi.Routing.Charge.{charge}
use boi.Routing.Budget.{route_all, charges}
use boi.Routing.SideChain.{side_chain_budget}
use boi.Repo.SpecRuntime.{SpecIterationCounter}
use boi.Adjustment.{clamp_u32}
use boi.Routing.{spec_counter_for, spec_cap_for, spec_cap_failure, spec_cap_exceeded, redo_target}
use boi.Routing.SpecCounters
use boi.Routing.SpecBudget.{spec_redo_budget}
use boi.Routing.Valid.{Valid, validate_pipeline-Valid}
use boi.Routing.Targets.{route_spec-In}
use boi.Routing.TaskTargets.{Target, route_task-Target}
use boi.Examples.Store.{spec_a, task_2, store, bus_code}

abbrev rule_to : String → RouteRule
rule_to next = record { next = some next; emit = "phase_completed" }

abbrev no_next : RouteRule
no_next = record { next = none; emit = "phase_completed" }

abbrev phase_def : String → PhaseLevel → PhaseKind → List (VerdictTag × RouteRule) → PhaseDef
phase_def name level kind on = record {
  name = name;
  level = level;
  kind = kind;
  prompt_template = none;
  runtime = record { provider = "p"; model = "m" };
  on = on;
}

abbrev worker_rules : String → List (VerdictTag × RouteRule)
worker_rules next =
    (VerdictTag.passing, rule_to next)
    ∷ (VerdictTag.redo, rule_to "execute")
    ∷ (VerdictTag.blocked, no_next)
    ∷ (VerdictTag.fail, rule_to "propose_adjustment")
    ∷ []

abbrev review_def : PhaseDef
review_def = phase_def "review" PhaseLevel.spec PhaseKind.worker (worker_rules "execute")

abbrev phases : Phases
phases =
    ("plan", phase_def "plan" PhaseLevel.spec PhaseKind.worker (worker_rules "review"))
    ∷ ("review", phase_def "review" PhaseLevel.spec PhaseKind.worker (worker_rules "execute"))
    ∷ (
      "execute",
      phase_def "execute" PhaseLevel.task PhaseKind.worker (worker_rules "merge_to_integration"),
    )
    ∷ (
      "propose_adjustment",
      phase_def "propose_adjustment" PhaseLevel.task PhaseKind.deterministic [],
    )
    ∷ (
      "merge_to_integration",
      phase_def "merge_to_integration" PhaseLevel.task PhaseKind.deterministic [],
    )
    ∷ []

abbrev pipeline : PipelineDef
pipeline = record {
  name = "standard";
  spec_phases = phase "plan" ∷ phase "review" ∷ tasks ∷ [];
  task_phases = "execute" ∷ [];
  overrides = [];
}

abbrev verdict_of : VerdictOutcome → WorkerVerdict
verdict_of outcome = record { outcome = outcome; synopsis = "done" }

abbrev passed_verdict : WorkerVerdict
passed_verdict = verdict_of (
    VerdictOutcome.passing (record {
      files_touched = [];
      verifications = [];
      summary = "done";
      merge_commit_sha = none;
    }))

abbrev again_verdict : WorkerVerdict
again_verdict = verdict_of (VerdictOutcome.redo "tests fail")

abbrev failed_verdict : WorkerVerdict
failed_verdict = verdict_of (VerdictOutcome.fail "e" "w" "f")

-- Three rounds of the work loop, with a failure in between.
abbrev routed : List (String × WorkerVerdict)
routed =
    ("execute", again_verdict)
    ∷ ("review", again_verdict)
    ∷ ("execute", failed_verdict)
    ∷ ("execute", again_verdict)
    ∷ []

unfoldable routing_code : Unit {0}
unfolding bus_code counter_for cap_for route_next next_in next_spec_phase route_spec
    route_spec_outcome Task.adjustment_route_to_action Task.into_side_chain Task.redo_loop
    Task.redo_task Task.fail_task Task.repo_increment Task.route_task_outcome Task.route_known
    Task.route_task each Validate.check_spec_entry Validate.check_task_entry Validate.check_next
    Validate.check_tag Validate.check_tags Validate.check_routes Validate.validate_pipeline
    Adjustment.enter_side_chain TaskRuntime.increment_iteration
routing_code = tt

spec_a-id : new_spec_id spec_a ≡ ok spec_a
unfolding bus_code
spec_a-id = refl

failure_charged : charge phases "execute" failed_verdict.outcome ≡ some IterationCounter.task_adjust
unfolding routing_code
failure_charged = refl

side_chain_budget_example :
    ((charges IterationCounter.task_adjust phases routed + 0 < 3)
      × ((route_task "execute" task_2 failed_verdict phases
            (route_all task_2 phases routed store)).0
          ≡ ok (TaskAction.run_phase "propose_adjustment")))
    ⊎ ((3 ≤ charges IterationCounter.task_adjust phases routed + 0)
        × ((d : ErrorWhyFix) × ((route_task "execute" task_2 failed_verdict phases
                (route_all task_2 phases routed store)).0
              ≡ ok (TaskAction.task_blocked (cap_exceeded "task_adjust" 3 d)))))
side_chain_budget_example =
    side_chain_budget task_2 phases "execute" failed_verdict routed store 0 spec_a spec_a refl refl
      spec_a-id failure_charged

validate_pipeline-Valid_example :
    (validate_pipeline pipeline phases ≡ ok tt) ↔ Valid pipeline phases
validate_pipeline-Valid_example = validate_pipeline-Valid pipeline phases

pipeline_accepted : validate_pipeline pipeline phases ≡ ok tt
unfolding routing_code
pipeline_accepted = refl

plan_passes :
    (route_spec spec_a "plan" passed_verdict pipeline phases store).0 ≡ ok (run_spec_phase "review")
unfolding routing_code
plan_passes = refl

route_spec-In_example : In (phase "review") pipeline.spec_phases
route_spec-In_example =
    route_spec-In spec_a "plan" pipeline (inl refl) passed_verdict phases store "review" plan_passes

failure_adjusted :
    (route_task "execute" task_2 failed_verdict phases store).0
    ≡ ok (TaskAction.run_phase "propose_adjustment")
unfolding routing_code
failure_adjusted = refl

route_task-Target_example : Target phases "propose_adjustment"
route_task-Target_example =
    route_task-Target task_2 pipeline phases
      ((validate_pipeline-Valid pipeline phases).0 pipeline_accepted) "execute" store failed_verdict
      "propose_adjustment" failure_adjusted

review_counted : spec_counter_for "review" ≡ some SpecIterationCounter.spec_review
unfolding spec_counter_for
review_counted = refl

abbrev reviews : List (String × WorkerVerdict)
reviews = ("review", again_verdict) ∷ ("plan", passed_verdict) ∷ ("review", again_verdict) ∷ []

spec_redo_budget_example :
    (route_spec spec_a "review" again_verdict pipeline phases
      (SpecCounters.route_all spec_a pipeline phases reviews store)).0
    ≡ ok (
        if ltb
          (SpecCounters.charges SpecIterationCounter.spec_review phases reviews + 0)
          (spec_cap_for SpecIterationCounter.spec_review)
        then run_spec_phase (redo_target "review" (route_next review_def VerdictTag.redo) pipeline)
        else spec_cap_exceeded (
            spec_cap_failure SpecIterationCounter.spec_review
              (clamp_u32
                (SpecCounters.charges SpecIterationCounter.spec_review phases reviews + 0 + 1))
              again_verdict))
spec_redo_budget_example =
    spec_redo_budget spec_a pipeline phases "review" review_def again_verdict refl
      SpecIterationCounter.spec_review "tests fail" reviews store 0 review_counted refl refl
