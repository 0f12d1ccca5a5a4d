-- ===== src/Scheduler/Progress.antt =====
-- src/service/scheduler.rs: `ready_tasks` on an acyclic graph of dependencies.
use boi.Prelude.{
  ℕ, zero, suc, ◌<◌, List, [], ◌∷◌, ok, ◌≡◌, ◌⊎◌, inl, inr, refl, sym, ◌∙◌, arith, In,
}
use boi.Types.Ids.{SpecId, TaskId}
use boi.Types.TaskState
use boi.Types.TaskState.{TaskState, from_str-as_str}
use boi.Repo.Db.{Db, TaskRuntimeRow}
use boi.Scheduler.{ready_tasks}
use boi.Scheduler.Ready.{
  StoreOk, TaskIn, DependsOn, IsReady, ready_tasks-IsReady, deps_list, deps_list-DependsOn,
}

-- The states that a run has left behind: nothing of the spec is running, blocked or canceled.
abbrev pub Quiet : SpecId → Db → Type 0
Quiet s db =
    (r : TaskRuntimeRow)
    → In r db.task_runtime
    → r.spec_id ≡ s
    → (r.state ≡ TaskState.as_str TaskState.not_started)
      ⊎ (r.state ≡ TaskState.as_str TaskState.passing)

-- A rank that falls along every dependency: the graph has no cycle.
abbrev pub Ranked : (TaskId → ℕ) → Db → Type 0
Ranked rank db = (t d : TaskId) → DependsOn db t d → rank d < rank t

-- The dependencies of a task of the spec are tasks of the spec.
abbrev pub Closed : SpecId → Db → Type 0
Closed s db =
    (r : TaskRuntimeRow)
    → In r db.task_runtime
    → r.spec_id ≡ s
    → (d : TaskId) → DependsOn db r.task_id d
    → (q : TaskRuntimeRow) × In q db.task_runtime × (q.spec_id ≡ s) × (q.task_id ≡ d)

module _ {db : Db} (o : StoreOk db) (s : SpecId) (rank : TaskId → ℕ) (quiet : Quiet s db)
    (closed : Closed s db) (ranked : Ranked rank db) where
  -- Either every task of a list of dependencies has passed, or one has not started.
  scan :
      (t : TaskId) (w : TaskIn s db t TaskState.not_started) (ds : List TaskId)
      → ((d : TaskId) → In d ds → DependsOn db t d)
      → ((d : TaskId) → In d ds → TaskIn s db d TaskState.passing)
        ⊎ ((d : TaskId) × DependsOn db t d × TaskIn s db d TaskState.not_started)
  scan t w [] h = inl (λ d i. elim i [ ])
  scan t w (d ∷ ds) h = elim (scan t w ds (λ x i. h x (inr i))) [
    | inr found ↦ inr found
    | inl passed ↦
        let dep = h d (inl refl) in
        let (q, stored, of_spec, named) = closed w.row w.stored w.of_spec d (rw w.named dep) in
        elim (quiet q stored of_spec) [
          | inl a ↦ inr (
            d,
            dep,
            record { row = q; stored = stored; of_spec = of_spec; named = named; stands = a },
          )
          | inr a ↦ inl (λ x i. elim i [
            | inl e ↦ record {
              row = q;
              stored = stored;
              of_spec = of_spec;
              named = named ∙ sym e;
              stands = a;
            }
            | inr j ↦ passed x j
          ])
        ]
  ]

  descend :
      (fuel : ℕ) (t : TaskId)
      → rank t < fuel
      → TaskIn s db t TaskState.not_started
      → (r : TaskId) × IsReady s db r
  descend zero t h w = elim h [ ]
  descend (suc fuel) t h w =
      elim (scan t w (deps_list t db) (λ d i. (deps_list-DependsOn t d db).0 i)) [
        | inl passed ↦ (
          t,
          record { waiting = w; unblocked = λ d e. passed d ((deps_list-DependsOn t d db).1 e) },
        )
        | inr (d, dep, v) ↦ descend fuel d (omega (arith, ranked t d dep)) v
      ]

  -- On a consistent store in which every task of the spec has either not started or passed, whose
  -- dependencies stay within the spec and have no cycle, `ready_tasks` returns some task whenever
  -- one has not started.
  pub ready_tasks_progress :
      (t : TaskId)
      → TaskIn s db t TaskState.not_started
      → (ready : List TaskId) × (ready_tasks s db ≡ (ok ready, db)) × ((r : TaskId) × In r ready)
  ready_tasks_progress t w =
      let (ready, p, exact) = ready_tasks-IsReady s o in
      let (r, now_ready) = descend (suc (rank t)) t (omega arith) w in
      (ready, p, (r, (exact r).1 now_ready))
