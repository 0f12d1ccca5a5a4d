-- ===== src/Config/Normalize.antt =====
-- src/config/spec.rs: the normalisation of a raw spec, and `parse_spec`. A path is a text. The TOML
-- reader and the value of `$HOME` are arguments.
pub mod Parses
use Prim.Native.String.{◌++◌ as text_append}
use Prim.Native.Char.{code}
use boi.Prelude.{
  ℕ, String, List, [], ◌∷◌, Bool, true, false, Option, none, some, Result, ok, err, ◌>>=◌, ◌==◌,
  map, eqb, Check, if◌then◌else◌,
}
use boi.Types.Ids.{chars}
use boi.Types.Plan.{Verification, intent, command}
use boi.Types.Context.{SkillRef, SpecContract}
use boi.Types.Decision.{RejectedAlternative}
use boi.Config.Spec.{
  ConfigError, unknown_delivery, workspace_home_unset, workspace_not_absolute, RawVerification,
  RawTask, RawContract, RawAlternative, RawDecision, RawSkill, RawSpec,
}
use boi.Config.Cycle.{validate}

pub data Delivery : Type 0 where
  merge pr branch_only : Delivery

unfoldable pub parse_delivery : Option String → Result ConfigError Delivery
parse_delivery none = ok merge
parse_delivery (some got) =
    if got == "merge"
    then ok merge
    else if got == "pr"
    then ok pr
    else if got == "branch-only"
    then ok branch_only
    else err (unknown_delivery got)

pub record TaskDef : Type 0 where
  pub task_ref : Option String
  pub behavior : String
  pub blocked_by : List String
  pub verifications : List Verification

pub record AuthoredDecision : Type 0 where
  pub title : String
  pub summary : String
  pub rationale : String
  pub alternatives : List RejectedAlternative

pub record Spec : Type 0 where
  pub title : String
  pub pipeline : String
  pub delivery : Delivery
  pub contract : SpecContract
  pub tasks : List TaskDef
  pub authored_decisions : List AuthoredDecision
  pub skills : List SkillRef

abbrev pub either_form : Option String → Option String → Option String → Verification
either_form name (some i) _ = intent name i
either_form name none (some c) = command name c
either_form name none none = intent name ""

unfoldable pub normalize_verification : RawVerification → Verification
normalize_verification raw = either_form raw.name raw.intent raw.command

-- `strip_prefix`
abbrev pub strip_prefix : List ℕ → String → Option String
strip_prefix [] s = some s
strip_prefix (c ∷ prefix) String.[] = none
strip_prefix (c ∷ prefix) (String.◌∷◌ d s) =
    let rest = strip_prefix prefix s in if eqb c (code d) then rest else none

-- A path that starts at the root.
abbrev pub is_absolute : String → Bool
is_absolute String.[] = false
is_absolute (String.◌∷◌ c s) = eqb (code c) b'/'

abbrev ends_in_separator : List ℕ → Bool
ends_in_separator [] = true
ends_in_separator (c ∷ []) = eqb c b'/'
ends_in_separator (c ∷ d ∷ cs) = ends_in_separator (d ∷ cs)

-- `PathBuf::join` on Unix: an absolute second path replaces the first one.
abbrev pub join : String → String → String
join base rest =
    if is_absolute rest
    then rest
    else if ends_in_separator (chars base)
    then text_append base rest
    else text_append base (text_append "/" rest)

abbrev pub home_or : Option String → Result ConfigError String
home_or none = err workspace_home_unset
home_or (some home) = ok home

abbrev pub expand_tilde : Option String → Option String → String → Result ConfigError String
expand_tilde home none path = ok path
expand_tilde home (some rest) path = home_or home >>= λ h. ok (join h rest)

unfoldable pub expand_workspace_with_home : String → Option String → Result ConfigError String
expand_workspace_with_home path home = do
  expanded ←
      if path == "~"
      then home_or home
      else expand_tilde home (strip_prefix (b'~' ∷ b'/' ∷ []) path) path
  if is_absolute expanded then ok expanded else err (workspace_not_absolute expanded)

abbrev pub or_default : Option String → String → String
or_default none default = default
or_default (some s) default = s

abbrev pub task_def : RawTask → TaskDef
task_def t = record {
  task_ref = t.task_ref;
  behavior = t.behavior;
  blocked_by = t.blocked_by;
  verifications = map normalize_verification t.verifications;
}

abbrev authored : RawDecision → AuthoredDecision
authored d = record {
  title = d.title;
  summary = d.summary;
  rationale = d.rationale;
  alternatives =
      map (λ (a : RawAlternative). record { name = a.name; reason = a.reason }) d.alternatives;
}

abbrev skill_ref : RawSkill → SkillRef
skill_ref s = record { name = s.name }

abbrev pub checked :
    Option (Check ConfigError) → Result ConfigError Spec → Option (Result ConfigError Spec)
checked none rest = none
checked (some (ok _)) rest = some rest
checked (some (err e)) rest = some (err e)

module _ {Toml : Type 0} where
  abbrev pub normal : RawSpec Toml → Delivery → String → Spec
  normal raw delivery workspace = record {
    title = raw.title;
    pipeline = or_default raw.pipeline "standard";
    delivery = delivery;
    contract = record {
      scope = raw.contract.scope;
      workspace = workspace;
      base_branch = raw.contract.base_branch;
      exclusions = raw.contract.exclusions;
      verifications = map normalize_verification raw.contract.verifications;
      must_emit = raw.contract.must_emit;
    };
    tasks = map task_def raw.tasks;
    authored_decisions = map authored raw.decisions;
    skills = map skill_ref raw.skills;
  }

  unfoldable pub normalize : Option String → RawSpec Toml → Result ConfigError Spec
  normalize home raw = do
    delivery ← parse_delivery raw.delivery
    workspace ← expand_workspace_with_home (or_default raw.contract.workspace "") home
    ok (normal raw delivery workspace)

  abbrev pub parsed :
      Option String → Result ConfigError (RawSpec Toml) → Option (Result ConfigError Spec)
  parsed home (err e) = some (err e)
  parsed home (ok raw) = checked (validate raw) (normalize home raw)

  -- `none` stands for the search of `validate` that does not end, which is never the answer.
  unfoldable pub parse_spec :
      (String → Result ConfigError (RawSpec Toml))
      → Option String
      → String
      → Option (Result ConfigError Spec)
  unfolding normalize
  parse_spec reader home input = parsed home (reader input)
