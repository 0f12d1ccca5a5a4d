-- ===== src/Types/Verdict.antt =====
-- src/types/verdict.rs: what a worker says of its phase.
use boi.Prelude.{String, List, Option, ℤ}
use boi.Types.Reasons.{ErrorWhyFix}

pub data VerifyLevel : Type 0 where
  l1 l2 l3 : VerifyLevel

pub record VerificationEvidence : Type 0 where
  pub name : Option String
  pub command : String
  pub exit_code : ℤ
  pub level : VerifyLevel

pub record Evidence : Type 0 where
  pub files_touched : List String
  pub verifications : List VerificationEvidence
  pub summary : String
  pub merge_commit_sha : Option String

pub data VerdictOutcome : Type 0 where
  passing : Evidence → VerdictOutcome
  redo : String → VerdictOutcome
  blocked : String → Option ErrorWhyFix → VerdictOutcome
  fail : String → String → String → VerdictOutcome  -- error, why, fix
  canceled : VerdictOutcome

pub record WorkerVerdict : Type 0 where
  pub synopsis : String
  pub outcome : VerdictOutcome
