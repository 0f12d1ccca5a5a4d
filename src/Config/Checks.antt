-- ===== src/Config/Checks.antt =====
-- src/config/validate.rs: the structural checks of a raw spec, all but the search for a cycle.
use boi.Prelude.{
  ℕ, String, List, [], ◌∷◌, ◌++◌, Bool, true, false, not, ◌&&◌, ◌||◌, Option, none, some, ok, ◌>>◌,
  ◌==◌, all, leb, eqb, contains, Check, refuse_if, each,
}
use boi.Types.Ids.{chars}
use boi.Config.Spec.{
  ConfigError, missing_field, workspace_xor, dangling_dep, duplicate_ref, verification_mutex,
  modes_removed, max_iterations_hardcoded, clean_state_strict, initiative_removed, unknown_pipeline,
  RawVerification, RawTask, RawSpec,
}

abbrev pub Checking : Type 0
Checking = Check ConfigError

abbrev pub is_some : {A : Type 0} → Option A → Bool
is_some none = false
is_some (some _) = true

abbrev pub is_empty : {A : Type 0} → List A → Bool
is_empty [] = true
is_empty (_ ∷ _) = false

-- `char::is_whitespace`, the property White_Space of Unicode.
abbrev pub is_whitespace : ℕ → Bool
is_whitespace c =
    (leb 9 c && leb c 13)
    || eqb c 32
    || eqb c 133
    || eqb c 160
    || eqb c 5760
    || (leb 8192 c && leb c 8202)
    || eqb c 8232
    || eqb c 8233
    || eqb c 8239
    || eqb c 8287
    || eqb c 12288

-- `trim().is_empty()`
unfoldable pub is_blank : String → Bool
is_blank s = all is_whitespace (chars s)

module _ {Toml : Type 0} where
  unfoldable pub reject_removed_fields : RawSpec Toml → Checking
  reject_removed_fields raw =
      refuse_if (is_some raw.mode) modes_removed
      >> refuse_if (is_some raw.max_iterations) max_iterations_hardcoded
      >> refuse_if (is_some raw.clean_state) clean_state_strict
      >> refuse_if (is_some raw.initiative) initiative_removed

unfoldable pub check_task_fields : RawTask → Checking
check_task_fields task =
    refuse_if (is_blank task.behavior) (missing_field "task.behavior")
    >> refuse_if (is_empty task.verifications) (missing_field "task.verifications")

module _ {Toml : Type 0} where
  unfoldable pub check_required_fields : RawSpec Toml → Checking
  check_required_fields raw =
      refuse_if (is_blank raw.title) (missing_field "title")
      >> refuse_if (is_blank raw.contract.scope) (missing_field "contract.scope")
      >> refuse_if (is_blank raw.contract.base_branch) (missing_field "contract.base_branch")
      >> refuse_if (is_empty raw.tasks) (missing_field "tasks")
      >> each check_task_fields raw.tasks

abbrev pub check_pipeline_name : Option String → Checking
check_pipeline_name none = ok tt
check_pipeline_name (some other) = refuse_if (not (other == "standard")) (unknown_pipeline other)

module _ {Toml : Type 0} where
  unfoldable pub check_pipeline : RawSpec Toml → Checking
  check_pipeline raw = check_pipeline_name raw.pipeline

abbrev pub same : Bool → Bool → Bool
same true b = b
same false b = not b

module _ {Toml : Type 0} where
  unfoldable pub check_workspace_xor : RawSpec Toml → Checking
  check_workspace_xor raw =
      refuse_if (same (is_some raw.contract.workspace) (is_some raw.contract.workspace_rationale))
        workspace_xor

unfoldable pub verification_label : RawVerification → String
verification_label v = elim v.name [ some name ↦ name | none ↦ "<unnamed>" ]

unfoldable pub check_verification : RawVerification → Checking
check_verification v =
    refuse_if (same (is_some v.intent) (is_some v.command))
      (verification_mutex (verification_label v))

abbrev pub task_verifications : List RawTask → List RawVerification
task_verifications [] = []
task_verifications (task ∷ tasks) = task.verifications ++ task_verifications tasks

module _ {Toml : Type 0} where
  unfoldable pub check_verifications : RawSpec Toml → Checking
  check_verifications raw =
      each check_verification (raw.contract.verifications ++ task_verifications raw.tasks)

-- The loop over the tasks, with the set of the refs that it has seen.
unfoldable pub check_refs : List String → List RawTask → Checking
check_refs seen [] = ok tt
check_refs seen (task ∷ tasks) = elim task.task_ref [
  | none ↦ check_refs seen tasks
  | some r ↦ refuse_if (contains seen r) (duplicate_ref r) >> check_refs (r ∷ seen) tasks
]

module _ {Toml : Type 0} where
  unfoldable pub check_ref_uniqueness : RawSpec Toml → Checking
  unfolding check_refs
  check_ref_uniqueness raw = check_refs [] raw.tasks

abbrev pub add_ref : Option String → List String → List String
add_ref none refs = refs
add_ref (some r) refs = r ∷ refs

abbrev pub declared_refs : List RawTask → List String
declared_refs [] = []
declared_refs (task ∷ tasks) = add_ref task.task_ref (declared_refs tasks)

abbrev pub task_label : RawTask → String
task_label task = elim task.task_ref [ none ↦ "<unnamed>" | some r ↦ r ]

unfoldable pub check_blocked_by : List String → RawTask → Checking
check_blocked_by declared task =
    each (λ dep. refuse_if (not (contains declared dep)) (dangling_dep (task_label task) dep))
      task.blocked_by

module _ {Toml : Type 0} where
  -- The first pass of `check_dependency_graph`.
  unfoldable pub check_dangling_deps : RawSpec Toml → Checking
  check_dangling_deps raw = each (check_blocked_by (declared_refs raw.tasks)) raw.tasks

  -- What `validate` runs before the search for a cycle.
  unfoldable pub check_structure : RawSpec Toml → Checking
  check_structure raw =
      reject_removed_fields raw
      >> check_required_fields raw
      >> check_pipeline raw
      >> check_workspace_xor raw
      >> check_verifications raw
      >> check_ref_uniqueness raw
      >> check_dangling_deps raw
