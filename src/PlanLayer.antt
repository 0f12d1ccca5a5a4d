-- ===== src/PlanLayer.antt =====
-- src/service/plan_layer.rs: the reports of tasks, and the application of a plan revision. The
-- reader of the artifact, the stem of its path and the JSON of payloads are arguments, and so is
-- the generator of ids: `draws k` for the edit at position k. One instant stands for one revision.
pub mod Apply
pub mod Contracts
use boi.Prelude.{
  ℕ, suc, ◌+◌, String, List, [], ◌∷◌, ◌++◌, Bool, true, false, not, Option, none, some, Result, ok,
  err, ◌==◌, any, contains, concat, if◌then◌else◌,
}
use boi.Types.Ids.{SpecId, TaskId, PhaseRunId, IdError, new_task_id, new_phase_run_id}
use boi.Types.TaskState
use boi.Types.TaskState.{TaskState, ParseStateError}
use boi.Types.Reasons.{plan_revision_pending, plan_revision_canceled}
use boi.Types.Plan.{Verification, PlanEdit, add_task, remove_task, retarget_deps, PlanRevision}
use boi.Types.Context.{TaskContract, Snapshot}
use boi.Types.Decision.{DecisionRecord, DecisionError, new_runtime}
use boi.Types.Event.{BoiEvent, task_blocked, task_unblocked, task_canceled, decision_made}
use boi.Types.Event
use boi.Repo.Exec.{Exec, pure, fail, lift, wrap, convert, ◌>>=◌, ◌>>◌}
use boi.Repo.Db.{Db, RepoError, not_found, TaskRuntimeRow, plan_revised}
use boi.Repo.TaskRuntime.{fetch, insert_task}
use boi.Repo.TaskDeps.{add_dep, remove_dep, deps_of}
use boi.Repo.SpecRuntime.{update_current_version}
use boi.Repo.SpecVersions.{append_version, fetch_snapshot}
use boi.Repo.Ids.{random_id, allocate_decision_id}
use boi.Bus.{BusError, EventBus, emit}

pub data ReportOutcome : Type 0 where
  run_plan_revision : TaskId → ReportOutcome
  advisory : ReportOutcome

pub data PlanLayerError : Type 0 where
  repo : RepoError → PlanLayerError
  bus : BusError → PlanLayerError
  artifact : String → PlanLayerError

abbrev pub Plan : Type 0 → Type 0
Plan A = Exec Db PlanLayerError A

-- A task that a revision removes, with its replacement.
abbrev pub Removal : Type 0
Removal = TaskId × Option TaskId

-- The rendering of an inner error is left out of the messages.
abbrev parsed_state : TaskId → Result ParseStateError TaskState → Result PlanLayerError TaskState
parsed_state t (ok s) = ok s
parsed_state t (err e) =
    err (repo (not_found (concat ("corrupt task_runtime.state for " ∷ t ∷ []))))

unfoldable pub parse_state : TaskRuntimeRow → Result PlanLayerError TaskState
parse_state row = parsed_state row.task_id (TaskState.from_str row.state)

abbrev pub made : {E A : Type 0} → String → Result E A → Result PlanLayerError A
made message (ok a) = ok a
made message (err e) = err (artifact message)

abbrev pub stem_or : Option String → Result PlanLayerError String
stem_or none = err (artifact "plan-revision artifact path has no file stem")
stem_or (some s) = ok s

abbrev pub replacement_note : Option TaskId → String
replacement_note none = ""
replacement_note (some r) = concat (" the planner named " ∷ r ∷ " as a replacement, but" ∷ [])

abbrev pub cons_id :
    Result PlanLayerError TaskId
    → Result PlanLayerError (List TaskId)
    → Result PlanLayerError (List TaskId)
cons_id (err e) rest = err e
cons_id (ok id) (err e) = err e
cons_id (ok id) (ok ids) = ok (id ∷ ids)

-- One minted id for each `AddTask`, in order.
unfoldable pub mint_added :
    (ℕ → ℕ → ℕ → ℕ) → ℕ → List PlanEdit → Result PlanLayerError (List TaskId)
mint_added draws k [] = ok []
mint_added draws k (add_task _ _ _ ∷ edits) =
    cons_id
      (made "generated invalid task id for an AddTask" (new_task_id (random_id "T" (draws k 0))))
      (mint_added draws (suc k) edits)
mint_added draws k (remove_task _ _ ∷ edits) = mint_added draws (suc k) edits
mint_added draws k (retarget_deps _ _ ∷ edits) = mint_added draws (suc k) edits

abbrev pub Contracts : Type 0
Contracts = List (TaskId × TaskContract)

-- `Map::insert`
unfoldable pub put_contract : TaskId → TaskContract → Contracts → Contracts
put_contract id contract [] = (id, contract) ∷ []
put_contract id contract ((k, c) ∷ rest) =
    let later = put_contract id contract rest in
    if k == id then (id, contract) ∷ rest else (k, c) ∷ later

unfoldable pub add_contracts :
    List PlanEdit → List TaskId → Contracts → Result PlanLayerError Contracts
unfolding put_contract
add_contracts [] ids contracts = ok contracts
add_contracts (add_task _ _ _ ∷ edits) [] contracts =
    err
      (artifact "internal: AddTask edit has no minted id — id-minting and edit iteration disagree")
add_contracts (add_task behavior verifications _ ∷ edits) (id ∷ ids) contracts =
    add_contracts edits ids
      (put_contract id (record { behavior = behavior; verifications = verifications }) contracts)
add_contracts (remove_task _ _ ∷ edits) ids contracts = add_contracts edits ids contracts
add_contracts (retarget_deps _ _ ∷ edits) ids contracts = add_contracts edits ids contracts

-- The stored snapshot is an object with `task_contracts` by its type.
unfoldable pub build_revised_snapshot : SpecId → ℕ → List PlanEdit → List TaskId → Plan Snapshot
unfolding add_contracts
build_revised_snapshot spec_id current_version edits ids = do
  snapshot ← convert repo (fetch_snapshot spec_id current_version)
  contracts ← lift (add_contracts edits ids snapshot.task_contracts)
  pure (record snapshot { task_contracts = contracts })

-- `for dep in deps { add_dep(..)? }`
unfoldable pub add_deps : TaskId → List TaskId → Plan (Unit {0})
add_deps t [] = pure tt
add_deps t (dep ∷ deps) = convert repo (add_dep t dep) >> add_deps t deps

unfoldable pub drop_deps : TaskId → List TaskId → List TaskId → Plan (Unit {0})
drop_deps t new_deps [] = pure tt
drop_deps t new_deps (old ∷ olds) =
    let rest = drop_deps t new_deps olds in
    if contains new_deps old then rest else convert repo (remove_dep t old) >> rest

unfoldable pub retarget : TaskId → List TaskId → Plan (Unit {0})
unfolding drop_deps add_deps
retarget t new_deps = do
  current ← convert repo (deps_of t)
  drop_deps t new_deps current
  add_deps t new_deps

unfoldable pub apply_structural_edits : SpecId → List PlanEdit → List TaskId → Plan (Unit {0})
unfolding retarget
apply_structural_edits spec_id [] ids = pure tt
apply_structural_edits spec_id (add_task _ _ _ ∷ edits) [] =
    fail (artifact "internal: AddTask edit has no minted id")
apply_structural_edits spec_id (add_task _ _ blocked_by ∷ edits) (id ∷ ids) = do
  convert repo (insert_task id spec_id none)
  add_deps id blocked_by
  apply_structural_edits spec_id edits ids
apply_structural_edits spec_id (retarget_deps t new_deps ∷ edits) ids = do
  retarget t new_deps
  apply_structural_edits spec_id edits ids
apply_structural_edits spec_id (remove_task _ _ ∷ edits) ids =
    apply_structural_edits spec_id edits ids
