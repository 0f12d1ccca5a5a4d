-- ===== src/Types/Decision.antt =====
-- src/types/decision.rs: a decision, its origin, and the constructors that keep the two consistent.
use boi.Prelude.{ℕ, String, List, Option, none, some, Result, ok, err}
use boi.Types.Ids.{SpecId, PhaseRunId, DecisionId}

pub data DecisionOrigin : Type 0 where
  authored runtime human : DecisionOrigin

pub record RejectedAlternative : Type 0 where
  pub name : String
  pub reason : String

-- An instant (`DateTime<Utc>`) is a number that grows with time.
pub record DecisionRecord : Type 0 where
  pub id : DecisionId
  pub spec_id : SpecId
  pub phase_run_id : Option PhaseRunId
  pub origin : DecisionOrigin
  pub title : String
  pub summary : String
  pub rationale : String
  pub alternatives : List RejectedAlternative
  pub supersedes : Option DecisionId
  pub created_at : ℕ

pub data DecisionError : Type 0 where
  authored_with_phase_run : DecisionError
  non_authored_without_phase_run : DecisionOrigin → DecisionError

unfoldable pub new_authored :
    DecisionId
    → SpecId
    → Option PhaseRunId
    → String
    → String
    → String
    → List RejectedAlternative
    → Option DecisionId
    → ℕ
    → Result DecisionError DecisionRecord
new_authored id spec_id none title summary rationale alternatives supersedes created_at =
    ok (record {
      id = id;
      spec_id = spec_id;
      phase_run_id = none;
      origin = authored;
      title = title;
      summary = summary;
      rationale = rationale;
      alternatives = alternatives;
      supersedes = supersedes;
      created_at = created_at;
    })
new_authored _ _ (some _) _ _ _ _ _ _ = err authored_with_phase_run

unfoldable pub new_non_authored :
    DecisionOrigin
    → DecisionId
    → SpecId
    → Option PhaseRunId
    → String
    → String
    → String
    → List RejectedAlternative
    → Option DecisionId
    → ℕ
    → Result DecisionError DecisionRecord
new_non_authored origin _ _ none _ _ _ _ _ _ = err (non_authored_without_phase_run origin)
new_non_authored origin id spec_id (some run) title summary rationale alternatives sup created_at =
    ok (record {
      id = id;
      spec_id = spec_id;
      phase_run_id = some run;
      origin = origin;
      title = title;
      summary = summary;
      rationale = rationale;
      alternatives = alternatives;
      supersedes = sup;
      created_at = created_at;
    })

abbrev pub new_runtime :
    DecisionId
    → SpecId
    → Option PhaseRunId
    → String
    → String
    → String
    → List RejectedAlternative
    → Option DecisionId
    → ℕ
    → Result DecisionError DecisionRecord
new_runtime = new_non_authored runtime

abbrev pub new_human :
    DecisionId
    → SpecId
    → Option PhaseRunId
    → String
    → String
    → String
    → List RejectedAlternative
    → Option DecisionId
    → ℕ
    → Result DecisionError DecisionRecord
new_human = new_non_authored human
