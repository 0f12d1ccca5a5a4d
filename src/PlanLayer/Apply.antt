-- ===== src/PlanLayer/Apply.antt =====
-- src/service/plan_layer.rs: `on_report` and `apply_revision`, which emit events on the bus.
pub mod Edges
pub mod Safe
pub mod Reports
use boi.Prelude.{
  ℕ, suc, ◌+◌, String, List, [], ◌∷◌, ◌++◌, Bool, true, false, Option, none, some, Result, ok, err,
  ◌==◌, any, concat, map, if◌then◌else◌,
}
use boi.Types.Ids.{SpecId, TaskId, PhaseRunId, new_phase_run_id}
use boi.Types.TaskState
use boi.Types.TaskState.{TaskState}
use boi.Types.Reasons.{plan_revision_pending, plan_revision_canceled}
use boi.Types.Plan.{PlanEdit, add_task, remove_task, retarget_deps, PlanRevision}
use boi.Types.Decision.{new_runtime}
use boi.Types.Event.{
  BoiEvent, task_blocked, task_unblocked, task_canceled, decision_made, plan_revised,
}
use boi.Repo.Exec.{pure, lift, convert, ◌>>=◌, ◌>>◌}
use boi.Repo.Db.{Db}
use boi.Repo.Db as Db
use boi.Repo.TaskRuntime.{fetch}
use boi.Repo.SpecRuntime.{update_current_version}
use boi.Repo.SpecVersions.{append_version}
use boi.Repo.Ids.{allocate_decision_id}
use boi.Bus.{EventBus, emit}
use boi.PlanLayer.{
  ReportOutcome, run_plan_revision, advisory, PlanLayerError, repo, bus, artifact, Plan, Removal,
  parse_state, made, stem_or, replacement_note, mint_added, build_revised_snapshot,
  apply_structural_edits,
}

unfoldable pub phase_run_id_from_artifact :
    (String → Option String) → String → Result PlanLayerError PhaseRunId
phase_run_id_from_artifact file_stem path = elim (stem_or (file_stem path)) [
  | err e ↦ err e
  | ok stem ↦ made "plan-revision artifact stem is not a valid phase-run id" (new_phase_run_id stem)
]

module _ {Json : Type 0} (events : EventBus Json) (now : ℕ) where
  abbrev pub emit_event : BoiEvent Json → Plan (Unit {0})
  emit_event event = convert bus (emit events event now)

  unfoldable pub on_report : SpecId → TaskId → String → Json → Bool → Plan ReportOutcome
  on_report spec_id reporting_task kind payload false = pure advisory
  on_report spec_id reporting_task kind payload true = do
    emit_event (task_blocked spec_id reporting_task (plan_revision_pending reporting_task kind))
    pure (run_plan_revision reporting_task)

  unfoldable pub record_retained_merged_task :
      (ℕ → ℕ → ℕ) → SpecId → PhaseRunId → TaskId → Option TaskId → Plan (Unit {0})
  record_retained_merged_task draws spec_id revision_run target replacement = do
    decision_id ← convert repo (allocate_decision_id draws)
    decision ← lift (
        made "could not build retained-task decision" (
          new_runtime decision_id spec_id (some revision_run) "PlanRevisionRetainedMergedTask"
            (concat (
              "plan revision asked to remove task " ∷ target
              ∷ ", but it is already `passing` (merged) — the task was retained." ∷ []))
            (concat (
              "a `passing → canceled` transition is illegal;"
              ∷ replacement_note replacement
              ∷ " the merged work stays. Recorded so the planner's intent is auditable."
              ∷ []))
            [] none now))
    emit_event (decision_made decision)

  -- The `match` on the state of the target of a `RemoveTask`.
  unfoldable pub removal :
      (ℕ → ℕ → ℕ) → SpecId → PhaseRunId → TaskId → Option TaskId → TaskState → Plan (List Removal)
  unfolding record_retained_merged_task
  removal draws spec_id run t replacement TaskState.passing =
      record_retained_merged_task draws spec_id run t replacement >> pure []
  removal draws spec_id run t replacement TaskState.canceled = pure []
  removal draws spec_id run t replacement TaskState.not_started = pure ((t, replacement) ∷ [])
  removal draws spec_id run t replacement TaskState.active = pure ((t, replacement) ∷ [])
  removal draws spec_id run t replacement TaskState.blocked = pure ((t, replacement) ∷ [])

  -- Step 2: the cancellations that are queued.
  unfoldable pub classify :
      (ℕ → ℕ → ℕ → ℕ) → SpecId → PhaseRunId → ℕ → List PlanEdit → Plan (List Removal)
  unfolding removal
  classify draws spec_id run k [] = pure []
  classify draws spec_id run k (remove_task t replacement ∷ edits) = do
    row ← convert repo (fetch t)
    state ← lift (parse_state row)
    here ← removal (draws k) spec_id run t replacement state
    rest ← classify draws spec_id run (suc k) edits
    pure (here ++ rest)
  classify draws spec_id run k (add_task _ _ _ ∷ edits) = classify draws spec_id run (suc k) edits
  classify draws spec_id run k (retarget_deps _ _ ∷ edits) =
      classify draws spec_id run (suc k) edits

  abbrev pub cancellation : SpecId → TaskId → Removal → BoiEvent Json
  cancellation spec_id triggered_by (t, replacement) =
      task_canceled spec_id t (plan_revision_canceled triggered_by replacement)

  -- Emits, and gives what was emitted.
  unfoldable pub emit_each : List (BoiEvent Json) → Plan (List (BoiEvent Json))
  emit_each [] = pure []
  emit_each (event ∷ rest) = do emit_event event; routed ← emit_each rest; pure (event ∷ routed)

  abbrev pub unblocking : SpecId → TaskId → List Removal → List (BoiEvent Json)
  unblocking spec_id triggered_by removals =
      if any (λ (removal : Removal). removal.0 == triggered_by) removals
      then []
      else task_unblocked spec_id triggered_by ∷ []

  module _ (read_revision_artifact : String → Result PlanLayerError PlanRevision)
      (file_stem : String → Option String) (diff_of : PlanRevision → Json)
      (meta_of : TaskId → ℕ → Json) (draws : ℕ → ℕ → ℕ → ℕ) where
    unfoldable pub apply_revision : SpecId → String → ℕ → TaskId → Plan (List (BoiEvent Json))
    unfolding classify emit_each phase_run_id_from_artifact
    apply_revision spec_id path current_version triggered_by = do
      revision ← lift (read_revision_artifact path)
      run ← lift (phase_run_id_from_artifact file_stem path)
      removals ← classify draws spec_id run 0 revision.edits
      added ← lift (mint_added draws 0 revision.edits)
      snapshot ← build_revised_snapshot spec_id current_version revision.edits added
      convert repo (append_version spec_id (current_version + 1) snapshot Db.plan_revised)
      convert repo (update_current_version spec_id (current_version + 1))
      apply_structural_edits spec_id revision.edits added
      emit_each (
          map (cancellation spec_id triggered_by) removals
          ++ unblocking spec_id triggered_by removals
          ++ plan_revised spec_id (diff_of revision) "task_report"
              (meta_of triggered_by (current_version + 1))
            ∷ [])
