-- ===== src/Types/Event.antt =====
-- src/types/event.rs: the events of the bus. `Json` is the type of `serde_json::Value`: the program
-- hands such payloads on and reads nothing of them here.
use boi.Prelude.{ℕ, String, Option, Bool, ℤ}
use boi.Types.Ids.{SpecId, TaskId, PhaseRunId}
use boi.Types.Reasons.{BlockedReason, CancellationReason, FailureReason}
use boi.Types.Verdict.{Evidence, WorkerVerdict}
use boi.Types.Decision.{DecisionRecord}

pub data BoiEvent (Json : Type 0) : Type 0 where
  spec_started : SpecId → BoiEvent Json
  spec_completed : SpecId → BoiEvent Json
  spec_failed : SpecId → FailureReason → BoiEvent Json
  spec_canceled : SpecId → CancellationReason → BoiEvent Json
  task_started : SpecId → TaskId → BoiEvent Json
  task_blocked : SpecId → TaskId → BlockedReason → BoiEvent Json
  task_unblocked : SpecId → TaskId → BoiEvent Json
  task_passed : SpecId → TaskId → Evidence → BoiEvent Json
  task_canceled : SpecId → TaskId → CancellationReason → BoiEvent Json
  -- spec_id, diff, trigger, trigger_meta
  plan_revised : SpecId → Json → String → Json → BoiEvent Json
  -- phase_run_id, spec_id, task_id, phase, provider, model, iteration
  phase_started : PhaseRunId → SpecId → Option TaskId → String → String → String → ℕ → BoiEvent Json
  -- phase_run_id, spec_id, task_id, phase, verdict, tokens_in, tokens_out, duration_ms
  phase_completed :
      PhaseRunId → SpecId → Option TaskId → String → WorkerVerdict → ℕ → ℕ → ℕ → BoiEvent Json
  decision_made : DecisionRecord → BoiEvent Json
  -- spec_id, task_id, kind, payload, blocking
  report_received : SpecId → TaskId → String → Json → Bool → BoiEvent Json
  -- spec_id, task_id, level, command, exit_code, stdout_excerpt
  verify_checked : SpecId → TaskId → String → String → ℤ → String → BoiEvent Json
  -- spec_id, task_id, tool, args_summary, result_summary
  tool_invoked : SpecId → Option TaskId → String → String → String → BoiEvent Json
  -- spec_id, task_id, phase, error, why, fix_proposed, fingerprint
  error_encountered :
      SpecId → Option TaskId → String → String → String → Option String → String → BoiEvent Json
