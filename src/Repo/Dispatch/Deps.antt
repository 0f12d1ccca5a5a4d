-- ===== src/Repo/Dispatch/Deps.antt =====
-- src/repo/dispatch.rs: when the loop over the edges inserts all of them.
use mathlib.Core.List.{append_assoc, append-nil}
use boi.Prelude.{
  and_iff, String, List, [], ◌∷◌, ◌++◌, true, false, ◌≡◌, ◌↔◌, subst, inl, inr, refl, sym, ap, In,
  any, map, eq_iff, Bool-cases, contains-In, In-contains, any-In, any_of_In,
}
use boi.Types.Ids.{TaskId}
use boi.Repo.Db.{Db, TaskRuntimeRow, TaskDepRow}
use boi.Repo.TaskRuntime.{has_id}
use boi.Repo.TaskRuntime.Rows.{ids}
use boi.Repo.TaskDeps.{is_edge}
use boi.Repo.Outcome.{
  Outcome, done_if, Outcome-then, Outcome-same, Outcome-weaken, Outcome-refuse, Outcome-require,
}
use boi.Repo.Dispatch.{DispatchDep, dep_row, insert_dep, insert_deps}
use boi.Repo.Dispatch.Tasks.{any_id}

-- Each edge joins two stored tasks, and none is stored or comes twice.
abbrev pub NewEdges : List String → List TaskDepRow → List DispatchDep → Type 0
NewEdges known edges [] = Unit
NewEdges known edges (dep ∷ deps) =
    (¬ In (dep_row dep) edges)
    × (In dep.task_id known × In dep.depends_on known)
    × NewEdges known (edges ++ dep_row dep ∷ []) deps

abbrev pub with_deps : List DispatchDep → Db → Db
with_deps deps db = record db { task_deps = db.task_deps ++ map dep_row deps }

is_edge-row :
    (dep : DispatchDep) (row : TaskDepRow)
    → (is_edge dep.task_id dep.depends_on row ≡ true) ↔ (row ≡ dep_row dep)
is_edge-row dep row =
    let (split, join) =
      and_iff _ _ (eq_iff row.task_id dep.task_id) (eq_iff row.depends_on dep.depends_on) in
    (
      λ h. let (p, q) = split h in λ i. record { task_id = p i; depends_on = q i },
      λ e. join (ap (λ (r : TaskDepRow). r.task_id) e, ap (λ (r : TaskDepRow). r.depends_on) e),
    )

edge_absent :
    (dep : DispatchDep) (edges : List TaskDepRow)
    → (any (is_edge dep.task_id dep.depends_on) edges ≡ false) ↔ (¬ In (dep_row dep) edges)
edge_absent dep edges = (
  λ h i. cc (
    h,
    any_of_In (is_edge dep.task_id dep.depends_on) edges (dep_row dep) i
        ((is_edge-row dep (dep_row dep)).1 refl),
  ),
  λ h. elim (Bool-cases (any (is_edge dep.task_id dep.depends_on) edges)) [
    | inl y ↦
        let (row, i, q) = any-In (is_edge dep.task_id dep.depends_on) edges y in
        absurd (h (subst (λ r. In r edges) ((is_edge-row dep row).0 q) i))
    | inr n ↦ n
  ],
)

present-In :
    (x : TaskId) (rows : List TaskRuntimeRow) → (any (has_id x) rows ≡ true) ↔ In x (ids rows)
present-In x rows = rw (any_id x rows) (contains-In (ids rows) x, In-contains (ids rows) x)

one_dep :
    (dep : DispatchDep) (db : Db)
    → Outcome
        ((¬ In (dep_row dep) db.task_deps)
          × (In dep.task_id (ids db.task_runtime) × In dep.depends_on (ids db.task_runtime)))
        (with_deps (dep ∷ []) db)
        (insert_dep dep db)
unfolding insert_dep
one_dep dep db = Outcome-refuse _ _ db _ (edge_absent dep db.task_deps) (
    Outcome-require _ _ db (
      and_iff _ _ (present-In dep.task_id db.task_runtime)
        (present-In dep.depends_on db.task_runtime)))

edges_step :
    (dep : DispatchDep) (deps : List DispatchDep) (db : Db)
    → with_deps deps (with_deps (dep ∷ []) db) ≡ with_deps (dep ∷ deps) db
edges_step dep deps db =
    ap (λ edges. record db { task_deps = edges })
      (append_assoc db.task_deps (dep_row dep ∷ []) (map dep_row deps))

-- The loop inserts all edges exactly if they are new and join stored tasks.
pub insert_deps-NewEdges :
    (deps : List DispatchDep) (db : Db)
    → Outcome
        (NewEdges (ids db.task_runtime) db.task_deps deps)
        (with_deps deps db)
        (insert_deps deps db)
unfolding insert_deps
insert_deps-NewEdges [] db =
    Outcome-same (ap (λ edges. record db { task_deps = edges }) (sym (append-nil db.task_deps)))
      (done_if tt)
insert_deps-NewEdges (dep ∷ deps) db =
    Outcome-weaken ((λ ((a, b), c). (a, b, c)), (λ (a, b, c). ((a, b), c)))
      (Outcome-then (with_deps (dep ∷ []) db) _ (insert_dep dep) (insert_deps deps) db
        (one_dep dep db)
        (Outcome-same (edges_step dep deps db)
          (insert_deps-NewEdges deps (with_deps (dep ∷ []) db))))
