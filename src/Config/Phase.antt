-- ===== src/Config/Phase.antt =====
-- src/config/phase.rs: the declaration of a phase. The TOML reader is a parameter of `from_toml`.
use boi.Prelude.{
  String, List, [], ◌∷◌, Option, none, some, Bool, true, false, ◌||◌, ◌==◌, Result, ok, err, ◌>>=◌,
  if◌then◌else◌,
}

pub data PhaseLevel : Type 0 where
  spec task : PhaseLevel

pub data PhaseKind : Type 0 where
  worker deterministic : PhaseKind

pub data VerdictTag : Type 0 where
  passing redo blocked fail : VerdictTag

pub record PhaseRuntime : Type 0 where
  pub provider : String
  pub model : String

pub record RouteRule : Type 0 where
  pub next : Option String
  pub emit : String

-- `on` is a map from verdict tags; its entries stand in the order in which the map yields them.
pub record PhaseDef : Type 0 where
  pub name : String
  pub level : PhaseLevel
  pub kind : PhaseKind
  pub prompt_template : Option String
  pub runtime : PhaseRuntime
  pub on : List (VerdictTag × RouteRule)

abbrev pub same_tag : VerdictTag → VerdictTag → Bool
same_tag VerdictTag.passing VerdictTag.passing = true
same_tag VerdictTag.redo VerdictTag.redo = true
same_tag VerdictTag.blocked VerdictTag.blocked = true
same_tag VerdictTag.fail VerdictTag.fail = true
same_tag _ _ = false

abbrev pub rule_for : List (VerdictTag × RouteRule) → VerdictTag → Option RouteRule
rule_for [] tag = none
rule_for ((t, rule) ∷ rest) tag = if same_tag t tag then some rule else rule_for rest tag

-- What the reader and the check after it refuse.
pub data PhaseError : Type 0 where
  toml : String → PhaseError
  missing_field : String → PhaseError

-- A deterministic phase has no prompt template.
unfoldable pub check_template : PhaseDef → Result PhaseError PhaseDef
check_template phase = refuse phase.kind phase.prompt_template
  where
    refuse : PhaseKind → Option String → Result PhaseError PhaseDef
    refuse deterministic (some _) =
        err (missing_field "prompt_template (must be absent for kind=deterministic)")
    refuse _ _ = ok phase

unfoldable pub from_toml :
    (String → Result PhaseError PhaseDef) → String → Result PhaseError PhaseDef
unfolding check_template
from_toml reader input = reader input >>= check_template

-- The phases by name, in the order in which the map yields them.
abbrev pub Phases : Type 0
Phases = List (String × PhaseDef)

abbrev pub phase_named : Phases → String → Option PhaseDef
phase_named [] name = none
phase_named ((n, phase) ∷ rest) name = if n == name then some phase else phase_named rest name

abbrev pub is_known : Phases → String → Bool
is_known [] name = false
is_known ((n, phase) ∷ rest) name = n == name || is_known rest name
