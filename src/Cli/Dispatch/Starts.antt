-- ===== src/Cli/Dispatch/Starts.antt =====
-- src/cli/dispatch.rs: an accepted spec from its text to the store, and the scheduler on it.
use boi.Prelude.{
  ℕ, suc, String, List, [], ◌∷◌, Option, some, Result, ok, ◌≡◌, inl, inr, refl, sym, ap, subst, ◌∙◌,
  arith, map, In, In-append_right, In-of_In-append, In-map, In-of_In-map,
}
use boi.Types.Ids.{TaskId, new_task_id}
use boi.Config.Spec.{ConfigError, RawSpec, RawTask}
use boi.Config.Cycle.Source.{WellFormed-Source}
use boi.Config.Normalize.{TaskDef, Spec, task_def, parse_spec}
use boi.Config.Normalize.Parses.{parse_spec-IsNormal}
use boi.Repo.Db.{Db, TaskDepRow}
use boi.Repo.TaskRuntime.Rows.{ids}
use boi.Repo.Ids.Form.{InRange, random_id-valid}
use boi.Repo.Dispatch.{DispatchTask, DispatchDep, dep_row, insert_dispatch}
use boi.Repo.Dispatch.Tasks.{NewIds, task_row}
use boi.Repo.Dispatch.Atomic.{Fresh, with_rows, insert_dispatch-Fresh}
use boi.Repo.Dispatch.Stored.{NewIds-apart, NewIds-same, with_rows-StoreOk}
use boi.Scheduler.{ready_tasks}
use boi.Scheduler.Ready.{StoreOk, DependsOn, IsReady, ready_tasks-IsReady}
use boi.Cli.Dispatch.{DispatchPlan, Minted, dispatch_task, build_dispatch}
use boi.Cli.Dispatch.Builds.{
  with_ids, IsPlan, Declared, In-with_ids, ref_to_id-In, build_dispatch-IsPlan,
}

-- The foreign key of `task_deps`: an edge starts at a stored task.
abbrev pub Referenced : Db → Type 0
Referenced db = (e : TaskDepRow) → In e db.task_deps → In e.task_id (ids db.task_runtime)

normal-Declared :
    (raws : List RawTask)
    → ((task : RawTask)
        → In task raws
        → (dep : String) → In dep task.blocked_by
        → (owner : RawTask) × In owner raws × (owner.task_ref ≡ some dep))
    → Declared (map task_def raws)
normal-Declared raws h task i r j =
    let (raw, k, e) = In-of_In-map task_def task raws i in
    let (owner, l, p) = h raw k r (subst (λ (t : TaskDef). In r t.blocked_by) e j) in
    (task_def owner, In-map task_def owner raws l, p)

no_refs : (a b : TaskDef) (r : String) → a.blocked_by ≡ [] → b ≡ a → ¬ In r b.blocked_by
no_refs a b r e p i =
    let j : In r [] = subst (In r) (ap (λ (x : TaskDef). x.blocked_by) p ∙ e) i in elim j [ ]

module _ (draws : ℕ → ℕ → ℕ) (h : (k : ℕ) → InRange (draws k)) where
  with_ids-valid :
      (k : ℕ) (tasks : List TaskDef) (t : TaskId) (task : TaskDef)
      → In (t, task) (with_ids draws k tasks)
      → new_task_id t ≡ ok t
  with_ids-valid k [] t task i = elim i [ ]
  with_ids-valid k (x ∷ tasks) t task (inl e) =
      subst (λ s. new_task_id s ≡ ok s) (sym (ap (λ (q : TaskId × TaskDef). q.0) e))
        (random_id-valid "T" (draws k) (h k))
  with_ids-valid k (x ∷ tasks) t task (inr i) = with_ids-valid (suc k) tasks t task i

  module _ (spec : Spec) (plan : DispatchPlan) (p : IsPlan draws spec plan) (db : Db)
      (o : StoreOk db) (referenced : Referenced db) (fresh : Fresh plan.rows db) where
    abbrev minted : Minted
    minted = with_ids draws 1 spec.tasks

    abbrev after : Db
    after = with_rows plan.rows db

    stored_task :
        (t : TaskId) (task : TaskDef)
        → In (t, task) minted
        → In (dispatch_task (t, task)) plan.rows.tasks
    stored_task t task i =
        subst (In (dispatch_task (t, task))) (sym p.tasks) (In-map dispatch_task (t, task) minted i)

    after-StoreOk : StoreOk after
    after-StoreOk =
        with_rows-StoreOk plan.rows db o fresh
          (λ task i.
            let ((t, def), j, e) =
              In-of_In-map dispatch_task task minted (subst (In task) p.tasks i) in
            subst (λ (x : DispatchTask). new_task_id x.task_id ≡ ok x.task_id) (sym e)
              (with_ids-valid 1 spec.tasks t def j))
          (λ dep i.
            let (_, _, _, (r, _, (d, k, e))) = (p.deps dep).0 i in
            let (owner, j, _) = ref_to_id-In minted r d k in
            subst (λ (x : DispatchDep). new_task_id x.depends_on ≡ ok x.depends_on) (sym e)
              (with_ids-valid 1 spec.tasks d owner j))

    no_edges :
        (t : TaskId) (task : TaskDef)
        → In (t, task) minted
        → task.blocked_by ≡ []
        → (d : TaskId) → ¬ DependsOn after t d
    no_edges t task i none_left d = λ (e, j, from, _). elim (In-of_In-append e db.task_deps _ j) [
      | inl old ↦
          NewIds-apart (ids db.task_runtime) plan.rows.tasks fresh.tasks _ (stored_task t task i)
            (subst (λ x. In x (ids db.task_runtime)) from (referenced e old))
      | inr new ↦
          let (dep, k, q) = In-of_In-map dep_row e plan.rows.deps new in
          let (t', task', k', (r, l, (_, _, w))) = (p.deps dep).0 k in
          let same : t' ≡ t =
            ap (λ (x : DispatchDep). x.task_id) (sym w)
            ∙ ap (λ (x : TaskDepRow). x.task_id) (sym q)
            ∙ from in
          let one : (t', task') ≡ (t, task) =
            NewIds-same dispatch_task (ids db.task_runtime) minted
              (subst (NewIds (ids db.task_runtime)) p.tasks fresh.tasks) (t', task') (t, task) k' i
              same in
          no_refs task task' r none_left (ap (λ (x : TaskId × TaskDef). x.1) one) l
    ]

    source-IsReady :
        (t : TaskId) (task : TaskDef)
        → In (t, task) minted
        → task.blocked_by ≡ []
        → IsReady plan.rows.spec_id after t
    source-IsReady t task i none_left = record {
      waiting = record {
        row = task_row plan.rows.spec_id (dispatch_task (t, task));
        stored = In-append_right _ db.task_runtime _ (
            In-map (task_row plan.rows.spec_id) (dispatch_task (t, task)) plan.rows.tasks
              (stored_task t task i));
        of_spec = refl;
        named = refl;
        stands = refl;
      };
      unblocked = λ d e. absurd (no_edges t task i none_left d e);
    }

module _ {Toml : Type 0} (reader : String → Result ConfigError (RawSpec Toml))
    (home : Option String) (input : String) (spec : Spec)
    (accepted : parse_spec reader home input ≡ some (ok spec)) (draws : ℕ → ℕ → ℕ)
    (h : (k : ℕ) → InRange (draws k)) where
  pub accepted-IsPlan :
      (plan : DispatchPlan) × (build_dispatch draws spec ≡ ok plan) × IsPlan draws spec plan
  accepted-IsPlan =
      let (raw, _, wf, _, normal) = parse_spec-IsNormal reader home input spec accepted in
      build_dispatch-IsPlan draws spec h
        (subst Declared (sym normal.tasks) (normal-Declared raw.tasks wf.deps))

  accepted_source :
      (t : TaskId) × (task : TaskDef) × In (t, task) (with_ids draws 1 spec.tasks)
      × (task.blocked_by ≡ [])
  accepted_source =
      let (raw, _, wf, acyclic, normal) = parse_spec-IsNormal reader home input spec accepted in
      let (source, i, none_left) = WellFormed-Source raw wf acyclic in
      let (t, there) =
        In-with_ids draws 1 spec.tasks (task_def source)
          (subst (In (task_def source)) (sym normal.tasks) (In-map task_def source raw.tasks i)) in
      (t, task_def source, there, none_left)

  module _ (plan : DispatchPlan) (built : build_dispatch draws spec ≡ ok plan) (db after : Db)
      (o : StoreOk db) (referenced : Referenced db)
      (inserted : insert_dispatch plan.rows db ≡ (ok tt, after)) where
    is_plan : IsPlan draws spec plan
    is_plan =
        let (made, e, w) = accepted-IsPlan in
        let same : made ≡ plan = ground (arith, sym e ∙ built) in subst (IsPlan draws spec) same w

    insertion : Fresh plan.rows db × (with_rows plan.rows db ≡ after)
    insertion = elim (insert_dispatch-Fresh plan.rows db) [
      | inl (fresh, e) ↦ (fresh, ap (λ z. z.1) (sym e ∙ inserted))
      | inr (_, (x, e)) ↦ absurd (cc (e, inserted))
    ]

    -- From the text of a spec to its first task. Take a generator whose numbers are indices of the
    -- alphabet, a consistent store whose edges start at stored tasks, a spec that `parse_spec`
    -- accepts, and the plan that `build_dispatch` makes of it. If the insertion of the plan's rows
    -- succeeds, then the store is consistent again, and `ready_tasks` returns some task of the spec.
    pub dispatched_spec_is_ready :
        StoreOk after
        × ((ready : List TaskId) × (ready_tasks plan.rows.spec_id after ≡ (ok ready, after))
            × ((t : TaskId) × In t ready))
    dispatched_spec_is_ready =
        let (fresh, same) = insertion in
        let (t, task, there, none_left) = accepted_source in
        let ok_after = after-StoreOk draws h spec plan is_plan db o referenced fresh in
        let (ready, p, exact) = ready_tasks-IsReady plan.rows.spec_id ok_after in
        let w =
          source-IsReady draws h spec plan is_plan db o referenced fresh t task there none_left in
        subst
          (λ db.
            StoreOk db
            × ((ready : List TaskId) × (ready_tasks plan.rows.spec_id db ≡ (ok ready, db))
                × ((t : TaskId) × In t ready)))
          same (ok_after, (ready, p, (t, (exact t).1 w)))
