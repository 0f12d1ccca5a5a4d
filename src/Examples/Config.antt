-- ===== src/Examples/Config.antt =====
-- The checks and the normalisation of a small spec, and the search for a cycle in two graphs.
use boi.Prelude.{ℕ, String, [], ◌∷◌, none, some, Result, ok, ◌≡◌, ◌↔◌, refl, Check, each}
use boi.Config.Spec.{ConfigError, RawSpec, RawVerification}
use boi.Config.Checks.{
  check_structure, reject_removed_fields, check_required_fields, is_blank, check_task_fields,
  check_pipeline, check_workspace_xor, check_verifications, check_verification,
  check_ref_uniqueness, check_dangling_deps, check_blocked_by,
}
use boi.Config.WellFormed.{WellFormed, check_structure-WellFormed}
use boi.Config.Cycle.{Graph, detect_cycle, graph_of, validate}
use boi.Config.Cycle.Invariant.{Acyclic}
use boi.Config.Cycle.Decides.{Decided, detect_cycle-Decided}
use boi.Config.Cycle.Accepts.{validate-Acyclic}
use boi.Config.Normalize.{
  Spec, merge, normal, parse_spec, parse_delivery, expand_workspace_with_home,
}

abbrev verification : RawVerification
verification = record { name = some "tests"; intent = none; command = some "cargo test" }

abbrev raw_spec : RawSpec ℕ
raw_spec = record {
  title = "Cache";
  pipeline = some "standard";
  delivery = none;
  contract = record {
    scope = "the cache";
    workspace = some "/repo";
    workspace_rationale = none;
    base_branch = "main";
    exclusions = [];
    verifications = [];
    must_emit = [];
  };
  tasks =
      (record {
        task_ref = some "a";
        behavior = "evict";
        blocked_by = [];
        verifications = verification ∷ [];
      })
      ∷ (record {
        task_ref = none;
        behavior = "report";
        blocked_by = "a" ∷ [];
        verifications = verification ∷ [];
      })
      ∷ [];
  decisions = [];
  skills = [];
  mode = none;
  max_iterations = none;
  clean_state = none;
  initiative = none;
}

check_structure-WellFormed_example : (check_structure raw_spec ≡ ok tt) ↔ WellFormed raw_spec
check_structure-WellFormed_example = check_structure-WellFormed raw_spec

abbrev ring : Graph
ring = ("a", "c" ∷ []) ∷ ("b", "a" ∷ []) ∷ ("c", "b" ∷ []) ∷ []

detect_cycle-Decided_example : Decided ring (detect_cycle ring)
detect_cycle-Decided_example = detect_cycle-Decided ring

validate-Acyclic_example :
    ((answer : Check ConfigError) × (validate raw_spec ≡ some answer))
    × ((validate raw_spec ≡ some (ok tt))
        ↔ (WellFormed raw_spec × Acyclic (graph_of raw_spec.tasks)))
validate-Acyclic_example = validate-Acyclic raw_spec

abbrev pub reader : String → Result ConfigError (RawSpec ℕ)
reader _ = ok raw_spec

abbrev pub spec : Spec
spec = normal raw_spec merge "/repo"

pub parse_ok : parse_spec reader none "" ≡ some (ok spec)
unfolding parse_spec validate check_structure reject_removed_fields check_required_fields is_blank
    each check_task_fields check_pipeline check_workspace_xor check_verifications check_verification
    check_ref_uniqueness check_dangling_deps check_blocked_by parse_delivery
    expand_workspace_with_home
parse_ok = refl

-- The same ref twice in one `blocked_by` is accepted.
abbrev repeated_spec : RawSpec ℕ
repeated_spec = record raw_spec {
  tasks =
      (record {
        task_ref = some "a";
        behavior = "evict";
        blocked_by = [];
        verifications = verification ∷ [];
      })
      ∷ (record {
        task_ref = none;
        behavior = "report";
        blocked_by = "a" ∷ "a" ∷ [];
        verifications = verification ∷ [];
      })
      ∷ [];
}

repeated_accepted : validate repeated_spec ≡ some (ok tt)
unfolding validate check_structure reject_removed_fields check_required_fields is_blank each
    check_task_fields check_pipeline check_workspace_xor check_verifications check_verification
    check_ref_uniqueness check_dangling_deps check_blocked_by
repeated_accepted = refl
