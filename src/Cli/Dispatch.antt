-- ===== src/Cli/Dispatch.antt =====
-- src/cli/dispatch.rs: `build_dispatch`. The generator of the ids is an argument: `draws 0` for the
-- spec, then one for each task. A `Map` is its list of entries, the last insertion last.
pub mod Builds
pub mod Starts
use Prim.Native.Char.{Char}
use boi.Prelude.{
  ℕ, suc, ◌+◌, String, List, [], ◌∷◌, ◌++◌, Bool, true, false, Option, none, some, Result, ok, err,
  ◌>>=◌, ◌==◌, map, if◌then◌else◌,
}
use boi.Types.Ids.{SpecId, TaskId, IdError, new_spec_id, new_task_id}
use boi.Types.Plan.{Verification}
use boi.Config.Normalize.{Delivery, merge, pr, branch_only, TaskDef, Spec}
use boi.Types.Context.{SkillRef, TaskContract, Snapshot}
use boi.Repo.Dispatch.{DispatchTask, DispatchDep, DispatchRows}
use boi.Repo.Ids.{random_id}

-- The two errors of `build_dispatch`; the rendering of the id error is left out.
pub data DispatchError : Type 0 where
  bad_id : IdError → DispatchError
  unknown_dep : ℕ → String → DispatchError  -- task, dep

pub record DispatchPlan : Type 0 where
  pub rows : DispatchRows
  pub skills : List String

abbrev pub delivery_str : Delivery → String
delivery_str merge = "merge"
delivery_str pr = "pr"
delivery_str branch_only = "branch-only"

abbrev pub minted_id : Result IdError String → Result DispatchError String
minted_id (ok id) = ok id
minted_id (err e) = err (bad_id e)

abbrev pub Minted : Type 0
Minted = List (TaskId × TaskDef)

-- The first loop: an id for each task, from the k-th draw on.
unfoldable pub mint : (ℕ → ℕ → ℕ) → ℕ → List TaskDef → Result DispatchError Minted
mint draws k [] = ok []
mint draws k (task ∷ tasks) = do
  task_id ← minted_id (new_task_id (random_id "T" (draws k)))
  rest ← mint draws (suc k) tasks
  ok ((task_id, task) ∷ rest)

abbrev pub has_ref : String → Option String → Bool
has_ref r none = false
has_ref r (some s) = s == r

abbrev pub or_else : Option TaskId → Option TaskId → Option TaskId
or_else (some t) _ = some t
or_else none rest = rest

-- `ref_to_id.get(dep_ref)`: the last insertion of a ref.
unfoldable pub ref_to_id : Minted → String → Option TaskId
ref_to_id [] r = none
ref_to_id ((id, task) ∷ tasks) r =
    or_else (ref_to_id tasks r) (if has_ref r task.task_ref then some id else none)

abbrev pub ok_or : Option TaskId → DispatchError → Result DispatchError TaskId
ok_or (some t) e = ok t
ok_or none e = err e

-- The inner loop over `blocked_by`; the index counts from 0, the error from 1.
unfoldable pub resolve : Minted → ℕ → TaskId → List String → Result DispatchError (List DispatchDep)
unfolding ref_to_id
resolve minted idx task_id [] = ok []
resolve minted idx task_id (dep_ref ∷ refs) = do
  depends_on ← ok_or (ref_to_id minted dep_ref) (unknown_dep (idx + 1) dep_ref)
  rest ← resolve minted idx task_id refs
  ok (record { task_id = task_id; depends_on = depends_on } ∷ rest)

-- The edges that the second loop collects.
unfoldable pub edges_from : Minted → ℕ → Minted → Result DispatchError (List DispatchDep)
unfolding resolve
edges_from minted idx [] = ok []
edges_from minted idx ((task_id, task) ∷ tasks) = do
  edges ← resolve minted idx task_id task.blocked_by
  rest ← edges_from minted (suc idx) tasks
  ok (edges ++ rest)

abbrev pub contract_of : TaskId × TaskDef → TaskId × TaskContract
contract_of (id, task) =
    (id, record { behavior = task.behavior; verifications = task.verifications })

abbrev pub dispatch_task : TaskId × TaskDef → DispatchTask
dispatch_task (id, task) = record { task_id = id; task_ref = task.task_ref }

abbrev pub snapshot_of : Spec → Minted → Snapshot
snapshot_of spec minted = record {
  snapshot_v = none;
  title = spec.title;
  delivery = delivery_str spec.delivery;
  spec_contract = spec.contract;
  task_contracts = map contract_of minted;
  skills = spec.skills;
}

abbrev pub plan_of : Spec → SpecId → Minted → List DispatchDep → DispatchPlan
plan_of spec spec_id minted edges = record {
  rows = record {
    spec_id = spec_id;
    snapshot = snapshot_of spec minted;
    tasks = map dispatch_task minted;
    deps = edges;
  };
  skills = map (λ (s : SkillRef). s.name) spec.skills;
}

unfoldable pub build_dispatch : (ℕ → ℕ → ℕ) → Spec → Result DispatchError DispatchPlan
unfolding mint edges_from
build_dispatch draws spec = do
  spec_id ← minted_id (new_spec_id (random_id "S" (draws 0)))
  minted ← mint draws 1 spec.tasks
  edges ← edges_from minted 0 minted
  ok (plan_of spec spec_id minted edges)
