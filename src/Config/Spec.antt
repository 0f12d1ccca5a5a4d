-- ===== src/Config/Spec.antt =====
-- src/config/spec.rs: a spec as its file has it, before it is checked. `Toml` is the type of
-- `toml::Value`; a path is a text. The TOML reader's own errors are left out of `ConfigError`.
use boi.Prelude.{String, List, Option}

pub data ConfigError : Type 0 where
  missing_field : String → ConfigError
  workspace_xor : ConfigError
  dependency_cycle : String → ConfigError
  dangling_dep : String → String → ConfigError  -- task_ref, missing
  duplicate_ref : String → ConfigError
  verification_mutex : String → ConfigError
  modes_removed max_iterations_hardcoded clean_state_strict initiative_removed : ConfigError
  unknown_delivery : String → ConfigError
  unknown_pipeline : String → ConfigError
  workspace_home_unset : ConfigError
  workspace_not_absolute : String → ConfigError

pub record RawVerification : Type 0 where
  pub name : Option String
  pub intent : Option String
  pub command : Option String

pub record RawTask : Type 0 where
  pub task_ref : Option String
  pub behavior : String
  pub blocked_by : List String
  pub verifications : List RawVerification

pub record RawContract : Type 0 where
  pub scope : String
  pub workspace : Option String
  pub workspace_rationale : Option String
  pub base_branch : String
  pub exclusions : List String
  pub verifications : List RawVerification
  pub must_emit : List String

pub record RawAlternative : Type 0 where
  pub name : String
  pub reason : String

pub record RawDecision : Type 0 where
  pub title : String
  pub summary : String
  pub rationale : String
  pub alternatives : List RawAlternative

pub record RawSkill : Type 0 where
  pub name : String

pub record RawSpec (Toml : Type 0) : Type 0 where
  pub title : String
  pub pipeline : Option String
  pub delivery : Option String
  pub contract : RawContract
  pub tasks : List RawTask
  pub decisions : List RawDecision
  pub skills : List RawSkill
  pub mode : Option Toml
  pub max_iterations : Option Toml
  pub clean_state : Option Toml
  pub initiative : Option Toml
