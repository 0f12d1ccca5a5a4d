-- ===== src/Config/Pipeline.antt =====
-- src/config/pipeline.rs: the two phase lists of a pipeline. The TOML reader is a parameter.
use boi.Prelude.{String, List, Option, ◌==◌, Result, ok, ◌>>=◌, map, if◌then◌else◌}
use boi.Config.Phase.{PhaseError}

pub data PipelinePhase : Type 0 where
  phase : String → PipelinePhase
  tasks : PipelinePhase

pub record RuntimeOverride : Type 0 where
  pub provider : Option String
  pub model : Option String

pub record PhaseOverride : Type 0 where
  pub runtime : RuntimeOverride

pub record PipelineDef : Type 0 where
  pub name : String
  pub spec_phases : List PipelinePhase
  pub task_phases : List String
  pub overrides : List (String × PhaseOverride)

pub record RawPipelineDef : Type 0 where
  pub name : String
  pub spec_phases : List String
  pub task_phases : List String
  pub overrides : List (String × PhaseOverride)

abbrev pub tasks_sentinel : String
tasks_sentinel = "<tasks>"

unfoldable pub phase_entry : String → PipelinePhase
phase_entry p = if p == tasks_sentinel then tasks else phase p

unfoldable pub from_raw : RawPipelineDef → PipelineDef
from_raw raw = record {
  name = raw.name;
  spec_phases = map phase_entry raw.spec_phases;
  task_phases = raw.task_phases;
  overrides = raw.overrides;
}

unfoldable pub parse_pipeline :
    (String → Result PhaseError RawPipelineDef) → String → Result PhaseError PipelineDef
parse_pipeline reader input = reader input >>= λ raw. ok (from_raw raw)
