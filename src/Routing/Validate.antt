-- ===== src/Routing/Validate.antt =====
-- src/service/routing.rs: `validate_pipeline`, the check of a pipeline at startup. A loop that
-- returns at its first violation is the first error among the checks of its entries.
use boi.Prelude.{
  String, List, [], ◌∷◌, Option, none, some, ok, err, ◌>>◌, concat, Check, each, if◌then◌else◌,
}
use boi.Config.Phase.{PhaseDef, PhaseKind, VerdictTag, RouteRule, Phases, is_known, rule_for}
use boi.Config.Pipeline.{PipelinePhase, phase, tasks, PipelineDef}
use boi.Routing.{RoutingError, malformed_pipeline}

abbrev pub Validating : Type 0
Validating = Check RoutingError

abbrev pub tag_name : VerdictTag → String
tag_name VerdictTag.passing = "Passing"
tag_name VerdictTag.redo = "Redo"
tag_name VerdictTag.blocked = "Blocked"
tag_name VerdictTag.fail = "Fail"

abbrev pub all_tags : List VerdictTag
all_tags = VerdictTag.passing ∷ VerdictTag.redo ∷ VerdictTag.blocked ∷ VerdictTag.fail ∷ []

unfoldable pub check_spec_entry : String → Phases → PipelinePhase → Validating
check_spec_entry pipeline phases tasks = ok tt
check_spec_entry pipeline phases (phase name) =
    if is_known phases name
    then ok tt
    else err (
        malformed_pipeline pipeline
          (concat ("spec_phases entry `" ∷ name ∷ "` has no PhaseDef" ∷ [])))

unfoldable pub check_task_entry : String → Phases → String → Validating
check_task_entry pipeline phases name =
    if is_known phases name
    then ok tt
    else err (
        malformed_pipeline pipeline
          (concat ("task_phases entry `" ∷ name ∷ "` has no PhaseDef" ∷ [])))

unfoldable pub check_next : String → Phases → String → VerdictTag → Option String → Validating
check_next pipeline phases name tag none = ok tt
check_next pipeline phases name tag (some next) =
    if is_known phases next
    then ok tt
    else err (
        malformed_pipeline pipeline (
          concat (
            "phase `"
            ∷ name
            ∷ "` routes "
            ∷ tag_name tag
            ∷ ".next to unknown phase `"
            ∷ next
            ∷ "`"
            ∷ [])))

abbrev pub require_rule : String → String → VerdictTag → Option RouteRule → Validating
require_rule pipeline name tag (some _) = ok tt
require_rule pipeline name tag none = err (
    malformed_pipeline pipeline
      (concat ("worker phase `" ∷ name ∷ "` is missing routing for " ∷ tag_name tag ∷ [])))

unfoldable pub check_tag : String → String → PhaseDef → VerdictTag → Validating
check_tag pipeline name def tag = require_rule pipeline name tag (rule_for def.on tag)

unfoldable pub check_tags : String → String → PhaseDef → PhaseKind → Validating
check_tags pipeline name def PhaseKind.worker = each (check_tag pipeline name def) all_tags
check_tags pipeline name def PhaseKind.deterministic = ok tt

unfoldable pub check_routes : String → Phases → String × PhaseDef → Validating
check_routes pipeline phases (name, def) =
    each (λ (tag, rule). check_next pipeline phases name tag rule.next) def.on
    >> check_tags pipeline name def def.kind

unfoldable pub validate_pipeline : PipelineDef → Phases → Validating
validate_pipeline p phases =
    each (check_spec_entry p.name phases) p.spec_phases
    >> each (check_task_entry p.name phases) p.task_phases
    >> each (check_routes p.name phases) phases
