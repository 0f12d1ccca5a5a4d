-- ===== src/Types/Reasons.antt =====
-- src/types/reasons.rs: why a task is blocked or canceled, and why a spec failed. A path is a text.
use boi.Prelude.{ℕ, String, List, Option}
use boi.Types.Ids.{TaskId}

pub record ErrorWhyFix : Type 0 where
  pub error : String
  pub why : String
  pub fix : String

pub data BlockedReason : Type 0 where
  awaiting_deps : List TaskId → BlockedReason
  cap_exceeded : String → ℕ → ErrorWhyFix → BlockedReason  -- loop_name, cap, last_error_why_fix
  merge_conflict : List String → String → String → String → BlockedReason
  -- conflicts, base_sha, head_sha, reason
  workspace_unclean : String → BlockedReason
  provider_failed : String → String → BlockedReason
  plan_revision_pending : TaskId → String → BlockedReason  -- triggered_by, report_kind
  manual : Option String → BlockedReason
  wall_clock_exceeded : String → ℕ → ℕ → BlockedReason  -- phase, budget_secs, elapsed_secs
  daemon_draining : BlockedReason

pub data CancellationReason : Type 0 where
  operator : Option String → CancellationReason
  plan_revision_canceled : TaskId → Option TaskId → CancellationReason
  spec_canceled : CancellationReason

pub data FailureReason : Type 0 where
  spec_review_exhausted : ℕ → String → FailureReason  -- iterations, last_critique
  daemon_crash : FailureReason
  operator_marked_failed : Option String → FailureReason
  preflight_failed : String → FailureReason
  wall_clock_exceeded : String → ℕ → ℕ → FailureReason
