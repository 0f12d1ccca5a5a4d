-- ===== src/PlanLayer/Apply/Safe.antt =====
-- src/service/plan_layer.rs: what a revision does to the table of tasks, whatever it answers.
use boi.Prelude.{
  ℕ, zero, suc, ◌+◌, String, List, [], ◌∷◌, ◌++◌, false, Option, none, Result, ok, err, ◌≡◌, inl,
  inr, refl, sym, ap, subst, arith, In, Bool-cases, any, contains, In-append_left,
}
use boi.Types.Ids.{SpecId, TaskId, PhaseRunId}
use boi.Types.TaskState
use boi.Types.TaskState.{TaskState}
use boi.Types.Plan.{PlanEdit, add_task, remove_task, retarget_deps, PlanRevision}
use boi.Types.Event.{BoiEvent}
use boi.Transitions.Paths.{IsTerminal}
use boi.Repo.Exec.{Exec, continue, convert, lift, pure, ◌>>=◌}
use boi.Repo.Db.{Db, RepoError, TaskRuntimeRow}
use boi.Repo.Db as Db
use boi.Repo.Ids.{random_id, is_taken, decision_rounds, allocate_decision_id}
use boi.Repo.TaskRuntime.{has_id, new_row, insert_task, fetch}
use boi.Repo.SpecRuntime.{update_current_version}
use boi.Repo.SpecVersions.{append_version, fetch_snapshot}
use boi.Repo.Dispatch.{DispatchTask}
use boi.Repo.Dispatch.Tasks.{absent-In, task_row}
use boi.Repo.Dispatch.Stored.{Unique-snoc, task_row-RowOk, All-with}
use boi.Bus.{EventBus}
use boi.Bus.Invariant.{RowOk, TableOk, TaskSteps-TableOk, TaskSteps-settled}
use boi.Bus.Refinement.{Moves-emit}
use boi.PlanLayer.{
  PlanLayerError, repo, add_contracts, mint_added, add_deps, retarget, build_revised_snapshot,
  apply_structural_edits,
}
use boi.PlanLayer.Contracts.{add_deps-Keeps, retarget-Keeps}
use boi.PlanLayer.Apply.{
  emit_event, record_retained_merged_task, removal, classify, emit_each, phase_run_id_from_artifact,
  apply_revision,
}

-- The rows that are passing or canceled stand in the other table as they are.
abbrev pub Settled : List TaskRuntimeRow → List TaskRuntimeRow → Type 0
Settled before after =
    (r : TaskRuntimeRow) (state : TaskState)
    → In r before
    → r.state ≡ TaskState.as_str state
    → IsTerminal state
    → In r after

-- From a consistent table to a consistent table that has every settled row.
pub record Safe {E A : Type 0} (m : Exec Db E A) : Type 0 where
  pub run :
      (db : Db)
      → TableOk db.task_runtime
      → TableOk (m db).1.task_runtime × Settled db.task_runtime (m db).1.task_runtime

continue-Safe :
    {E A B : Type 0} (r : Result E A) (f : A → Exec Db E B) (db : Db)
    → ((a : A) → Safe (f a))
    → TableOk db.task_runtime
    → TableOk (continue r f db).1.task_runtime
      × Settled db.task_runtime (continue r f db).1.task_runtime
continue-Safe (ok a) f db h o = (h a).run db o
continue-Safe (err e) f db h o = (o, λ r state i e t. i)

bind-Safe :
    {E A B : Type 0} (m : Exec Db E A) (f : A → Exec Db E B)
    → Safe m
    → ((a : A) → Safe (f a))
    → Safe (m >>= f)
bind-Safe m f a b = record {
  run = λ db o.
      let (o1, s1) = a.run db o in
      let (o2, s2) = continue-Safe (m db).0 f (m db).1 b o1 in
      (o2, λ r state i e t. s2 r state (s1 r state i e t) e t);
}

same-Safe :
    {E A : Type 0} (m : Exec Db E A)
    → ((db : Db) → (m db).1.task_runtime ≡ db.task_runtime)
    → Safe m
same-Safe m k = record {
  run = λ db o. (subst TableOk (sym (k db)) o, λ r state i e t. subst (In r) (sym (k db)) i);
}

plain-Safe : {E A : Type 0} (r : Result E A) → Safe (lift {S = Db} r)
plain-Safe r = same-Safe (lift r) (λ db. refl)

-- A row with a new id beside the others.
grown :
    (s : SpecId) (id : TaskId) (rows : List TaskRuntimeRow)
    → any (has_id id) rows ≡ false
    → TableOk rows
    → TableOk (rows ++ new_row id s none ∷ [])
grown s id rows n o =
    let task : DispatchTask = record { task_id = id; task_ref = none } in
    record {
      unique = Unique-snoc rows (new_row id s none) o.unique ((absent-In id rows).0 n);
      consistent =
          All-with RowOk (task_row s) rows (task ∷ []) o.consistent (λ x i. task_row-RowOk s x);
    }

insert-Safe : (s : SpecId) (id : TaskId) → Safe (convert repo (insert_task id s none))
unfolding insert_task
insert-Safe s id = record {
  run = λ db o. elim (Bool-cases (any (has_id id) db.task_runtime)) [
    | inl y ↦ rw y (o, λ r state i e t. i)
    | inr n ↦ elim (Bool-cases (contains db.specs s)) [
      | inr m ↦ rw (n, m) (o, λ r state i e t. i)
      | inl m ↦
          rw (n, m)
            (grown s id db.task_runtime n o, λ r state i e t. In-append_left r db.task_runtime _ i)
    ]
  ];
}

structural-Safe :
    (s : SpecId) (edits : List PlanEdit) (left : List TaskId)
    → Safe (apply_structural_edits s edits left)
unfolding apply_structural_edits
structural-Safe s [] left = plain-Safe _
structural-Safe s (add_task b v deps ∷ edits) [] = plain-Safe _
structural-Safe s (add_task b v deps ∷ edits) (id ∷ left) =
    bind-Safe (convert repo (insert_task id s none)) _ (insert-Safe s id) (λ _.
      bind-Safe (add_deps id deps) _ (same-Safe (add_deps id deps) (add_deps-Keeps id deps))
        (λ _. structural-Safe s edits left))
structural-Safe s (retarget_deps t new ∷ edits) left =
    bind-Safe (retarget t new) _ (same-Safe (retarget t new) (retarget-Keeps t new))
      (λ _. structural-Safe s edits left)
structural-Safe s (remove_task t r ∷ edits) left = structural-Safe s edits left

snapshot-Safe :
    (s : SpecId) (version : ℕ) (edits : List PlanEdit) (added : List TaskId)
    → Safe (build_revised_snapshot s version edits added)
unfolding build_revised_snapshot
snapshot-Safe s version edits added =
    bind-Safe (convert repo (fetch_snapshot s version)) _
      (same-Safe _ (λ db. unfold fetch_snapshot in ground arith))
      (λ snapshot.
        bind-Safe (lift (add_contracts edits added snapshot.task_contracts))
          (λ contracts. pure (record snapshot { task_contracts = contracts }))
          (plain-Safe (add_contracts edits added snapshot.task_contracts))
          (λ contracts. plain-Safe (ok (record snapshot { task_contracts = contracts }))))

module _ {Json : Type 0} (events : EventBus Json) (now : ℕ) where
  emit-Safe : (event : BoiEvent Json) → Safe (emit_event events now event)
  emit-Safe event = record {
    run = λ db o.
        let steps = (Moves-emit events event now).run db in
        (TaskSteps-TableOk steps o, λ r state i e t. TaskSteps-settled r state steps o i e t);
  }

  emit_each-Safe : (list : List (BoiEvent Json)) → Safe (emit_each events now list)
  unfolding emit_each
  emit_each-Safe [] = plain-Safe (ok [])
  emit_each-Safe (event ∷ rest) = bind-Safe (emit_event events now event) _ (emit-Safe event) (λ _.
      bind-Safe (emit_each events now rest) _ (emit_each-Safe rest)
        (λ routed. plain-Safe (ok (event ∷ routed))))

  rounds-same :
      (draws : ℕ → ℕ → ℕ) (k left : ℕ) (db : Db) → (decision_rounds draws k left db).1 ≡ db
  unfolding decision_rounds
  rounds-same draws k zero db = refl
  rounds-same draws k (suc left) db = elim (Bool-cases (is_taken db (random_id "D" (draws k)))) [
    | inl y ↦ rw y (rounds-same draws (suc k) left db)
    | inr n ↦ rw n
  ]

  record-Safe :
      (draws : ℕ → ℕ → ℕ) (s : SpecId) (run : PhaseRunId) (t : TaskId) (r : Option TaskId)
      → Safe (record_retained_merged_task events now draws s run t r)
  unfolding record_retained_merged_task
  record-Safe draws s run t r =
      bind-Safe (convert repo (allocate_decision_id draws)) _
        (same-Safe _ (λ db.
          unfold allocate_decision_id in
          ap (λ (d : Db). d.task_runtime) (rounds-same draws 0 5 db)))
        (λ id. bind-Safe (lift _) _ (plain-Safe _) (λ decision. emit-Safe _))

  removal-Safe :
      (draws : ℕ → ℕ → ℕ) (s : SpecId) (run : PhaseRunId) (t : TaskId) (r : Option TaskId)
      (state : TaskState)
      → Safe (removal events now draws s run t r state)
  unfolding removal
  removal-Safe draws s run t r TaskState.passing =
      bind-Safe (record_retained_merged_task events now draws s run t r) _
        (record-Safe draws s run t r) (λ _. plain-Safe (ok []))
  removal-Safe draws s run t r TaskState.canceled = plain-Safe _
  removal-Safe draws s run t r TaskState.not_started = plain-Safe _
  removal-Safe draws s run t r TaskState.active = plain-Safe _
  removal-Safe draws s run t r TaskState.blocked = plain-Safe _

  classify-Safe :
      (draws : ℕ → ℕ → ℕ → ℕ) (s : SpecId) (run : PhaseRunId) (k : ℕ) (edits : List PlanEdit)
      → Safe (classify events now draws s run k edits)
  unfolding classify
  classify-Safe draws s run k [] = plain-Safe (ok [])
  classify-Safe draws s run k (add_task _ _ _ ∷ edits) = classify-Safe draws s run (suc k) edits
  classify-Safe draws s run k (retarget_deps _ _ ∷ edits) = classify-Safe draws s run (suc k) edits
  classify-Safe draws s run k (remove_task t r ∷ edits) =
      bind-Safe (convert repo (fetch t)) _ (same-Safe _ (λ db. unfold fetch in refl)) (λ row.
        bind-Safe (lift _) _ (plain-Safe _) (λ state.
          bind-Safe (removal events now (draws k) s run t r state) _
            (removal-Safe (draws k) s run t r state)
            (λ here.
              bind-Safe (classify events now draws s run (suc k) edits) _
                (classify-Safe draws s run (suc k) edits)
                (λ rest. plain-Safe (ok (here ++ rest))))))

  module _ (read_revision_artifact : String → Result PlanLayerError PlanRevision)
      (file_stem : String → Option String) (diff_of : PlanRevision → Json)
      (meta_of : TaskId → ℕ → Json) (draws : ℕ → ℕ → ℕ → ℕ) where
    apply-Safe :
        (s : SpecId) (path : String) (version : ℕ) (t : TaskId)
        → Safe (
            apply_revision events now read_revision_artifact file_stem diff_of meta_of draws s path
              version t)
    unfolding apply_revision
    apply-Safe s path version t =
        bind-Safe (lift (read_revision_artifact path)) _ (plain-Safe (read_revision_artifact path))
          (λ revision.
            bind-Safe (lift (phase_run_id_from_artifact file_stem path)) _
              (plain-Safe (phase_run_id_from_artifact file_stem path))
              (λ run.
                bind-Safe (classify events now draws s run 0 revision.edits) _
                  (classify-Safe draws s run 0 revision.edits)
                  (λ removals.
                    bind-Safe (lift (mint_added draws 0 revision.edits)) _
                      (plain-Safe (mint_added draws 0 revision.edits))
                      (λ added.
                        bind-Safe (build_revised_snapshot s version revision.edits added) _
                          (snapshot-Safe s version revision.edits added)
                          (λ snapshot.
                            bind-Safe
                              (convert repo
                                (append_version s (version + 1) snapshot Db.plan_revised))
                              _ (same-Safe _ (λ db. unfold append_version in ground arith))
                              (λ _.
                                bind-Safe (convert repo (update_current_version s (version + 1))) _
                                  (same-Safe _
                                    (λ db. unfold update_current_version in ground arith))
                                  (λ _.
                                    bind-Safe (apply_structural_edits s revision.edits added) _
                                      (structural-Safe s revision.edits added)
                                      (λ _. emit_each-Safe _))))))))

    -- Whatever a plan revision asks for, and whether it ends in an error or not: from a table of
    -- tasks whose ids are distinct and whose rows are consistent, `apply_revision` leads to such a
    -- table, and every task that is passing or canceled has the same row as before, in every
    -- column.
    pub apply_revision-Settled :
        (s : SpecId) (path : String) (version : ℕ) (t : TaskId) (db : Db)
        → TableOk db.task_runtime
        → TableOk
            (apply_revision events now read_revision_artifact file_stem diff_of meta_of draws s path
              version t db).1.task_runtime
          × Settled db.task_runtime
              (apply_revision events now read_revision_artifact file_stem diff_of meta_of draws s
                path version t db).1.task_runtime
    apply_revision-Settled s path version t db o = (apply-Safe s path version t).run db o
