-- ===== src/Examples/PlanLayer.antt =====
-- A plan revision on the sample store: it adds a task, removes the one that is active, and
-- retargets the one that waits.
use boi.Prelude.{
  err, true, ℕ, String, List, [], ◌∷◌, none, some, Result, ok, ◌≡◌, ◌≢◌, ◌↔◌, ◌⊎◌, inl, inr, refl,
  map, In,
}
use boi.Types.Ids.{TaskId}
use boi.Types.TaskState
use boi.Types.TaskState.{TaskState}
use boi.Types.Plan.{add_task, remove_task, retarget_deps, PlanRevision}
use boi.Repo.Db.{Db, TaskRuntimeRow, TaskDepRow}
use boi.Repo.Ids.{random_id}
use boi.Repo.SpecVersions.{fetch_snapshot, append_version}
use boi.Transitions.{TransitionError}
use boi.Bus.{illegal_transition}
use boi.Repo.SpecRuntime.{update_current_version}
use boi.Repo.TaskRuntime.{insert_task}
use boi.Repo.TaskDeps.{add_dep, remove_dep, deps_of, collect_ids}
use boi.Bus.Invariant.{TableOk}
use boi.PlanLayer.{
  run_plan_revision, Contracts, PlanLayerError, mint_added, parse_state, build_revised_snapshot,
  retarget, apply_structural_edits,
}
use boi.PlanLayer.Apply.{apply_revision, on_report}
use boi.PlanLayer.Apply.Reports.{with_report, on_report_blocks}
use boi.PlanLayer
use boi.PlanLayer.Apply.Edges.{with_edges, retarget-From}
use boi.PlanLayer.Apply.Safe.{Settled, apply_revision-Settled}
use boi.Examples.Store.{spec_a, task_1, task_2, task_3, store, bus, bus_code, task_row}
use boi.Examples.Bus.{store-TableOk}
use boi.Examples.Scheduler.{store-StoreOk}

abbrev revision : PlanRevision
revision = record {
  edits =
      add_task "report" [] (task_1 ∷ [])
      ∷ remove_task task_2 none
      ∷ retarget_deps task_3 (task_1 ∷ [])
      ∷ [];
}

abbrev draws : ℕ → ℕ → ℕ → ℕ
draws k i j = 9

abbrev read : String → Result PlanLayerError PlanRevision
read _ = ok revision

retarget-From_example :
    (edges : List TaskDepRow) × (retarget task_3 (task_1 ∷ []) store
      ≡ (ok tt, with_edges edges store))
    × ((e : TaskDepRow)
        → In e edges ↔ (
            ((e.task_id ≢ task_3) × In e store.task_deps)
            ⊎ ((e.task_id ≡ task_3) × In e.depends_on (task_1 ∷ []))))
retarget-From_example =
    retarget-From task_3 (task_1 ∷ []) store store-StoreOk (inr (inr (inl refl)))
      (λ d i. elim i [ inl e ↦ inl e | inr z ↦ elim z [ ] ])

abbrev revised : Db
revised =
    (apply_revision bus 20 read (λ _. some "P0000001a") (λ _. 0) (λ _ v. v) draws spec_a
      "P0000001a.json" 1 task_2 store).1

abbrev states : List TaskRuntimeRow → List (TaskId × String)
states rows = map (λ (r : TaskRuntimeRow). (r.task_id, r.state)) rows

-- The passed task stays, the removed one is canceled, and the added one has not started.
revised_states :
    states revised.task_runtime
    ≡ (task_1, "passing")
      ∷ (task_2, "canceled")
      ∷ (task_3, "not_started")
      ∷ ("T99999999", "not_started")
      ∷ []
unfolding bus_code apply_revision mint_added random_id parse_state build_revised_snapshot
    fetch_snapshot append_version update_current_version apply_structural_edits insert_task add_dep
    remove_dep deps_of collect_ids
revised_states = refl

apply_revision-Settled_example :
    TableOk revised.task_runtime × Settled store.task_runtime revised.task_runtime
apply_revision-Settled_example =
    apply_revision-Settled bus 20 read (λ _. some "P0000001a") (λ _. 0) (λ _ v. v) draws spec_a
      "P0000001a.json" 1 task_2 store store-TableOk

abbrev active_row : TaskRuntimeRow
active_row = task_row task_2 TaskState.active (some 8) none

on_report_blocks_example :
    ((TaskState.active ≡ TaskState.active)
      × (on_report bus 20 spec_a task_2 "scope_gap" 0 true store
          ≡ (ok (run_plan_revision task_2), with_report bus 20 spec_a task_2 "scope_gap" 0 store)))
    ⊎ ((TaskState.active ≢ TaskState.active)
        × ((e : TransitionError) × (on_report bus 20 spec_a task_2 "scope_gap" 0 true store
              ≡ (err (PlanLayer.bus (illegal_transition e)), store))))
on_report_blocks_example =
    on_report_blocks bus 20 spec_a task_2 "scope_gap" 0 store active_row TaskState.active
      store-TableOk (inr (inl refl)) refl refl
