-- ===== src/Scheduler/Ready.antt =====
-- src/service/scheduler.rs: `ready_tasks` against the tasks and the edges of the store.
use boi.Prelude.{
  String, List, [], ◌∷◌, Bool, true, ◌&&◌, some, ok, ◌≡◌, inl, inr, refl, sym, subst, ◌↔◌, arith,
  In, All, ◌==◌, eq_iff, Bool-cases, All-In, all-In, all_of_In, In-filter, In-of_In-filter,
  In-order_by, In-of_In-order_by, In-map, In-of_In-map, filter, map, order_by, text_leb,
}
use boi.Types.Ids.{SpecId, TaskId, new_task_id}
use boi.Types.TaskState
use boi.Types.TaskState.{TaskState, from_str-as_str}
use boi.Repo.Db.{Db, TaskRuntimeRow, TaskDepRow}
use boi.Repo.TaskRuntime
use boi.Repo.TaskRuntime.Rows.{Unique-In}
use boi.Repo.TaskDeps
use boi.Repo.TaskDeps.{collect_ids}
use boi.Bus.Invariant.{TableOk, RowOk}
use boi.Scheduler.{collect_ready, ready_tasks}
use boi.Scheduler.States.{
  StateById, get, is_not_started, is_passing, all_deps_passing, parse_task_id,
}
use boi.Scheduler.StateMap.{
  Readable, Functional, Describes, index_states_total, index_states-Describes,
}

-- A store whose tasks are consistent and whose stored ids are ids.
pub record StoreOk (db : Db) : Type 0 where
  pub tasks : TableOk db.task_runtime
  pub task_ids : All (λ r. new_task_id r.task_id ≡ ok r.task_id) db.task_runtime
  pub dep_ids : All (λ e. new_task_id e.depends_on ≡ ok e.depends_on) db.task_deps

-- The rows that `tasks_for_spec` returns.
abbrev pub spec_rows : SpecId → Db → List TaskRuntimeRow
spec_rows s db =
    order_by (λ a b. text_leb a.task_id b.task_id)
      (filter (λ row. row.spec_id == s) db.task_runtime)

-- A row of the spec with this id and this state.
pub record TaskIn (s : SpecId) (db : Db) (t : TaskId) (state : TaskState) : Type 0 where
  pub row : TaskRuntimeRow
  pub stored : In row db.task_runtime
  pub of_spec : row.spec_id ≡ s
  pub named : row.task_id ≡ t
  pub stands : row.state ≡ TaskState.as_str state

abbrev pub DependsOn : Db → TaskId → TaskId → Type 0
DependsOn db t d = (e : TaskDepRow) × In e db.task_deps × (e.task_id ≡ t) × (e.depends_on ≡ d)

-- What it is for a task of the spec to be ready.
pub record IsReady (s : SpecId) (db : Db) (t : TaskId) : Type 0 where
  pub waiting : TaskIn s db t TaskState.not_started
  pub unblocked : (d : TaskId) → DependsOn db t d → TaskIn s db d TaskState.passing

pub spec_rows-In :
    (s : SpecId) (db : Db) (r : TaskRuntimeRow)
    → In r (spec_rows s db)
    → In r db.task_runtime × (r.spec_id ≡ s)
spec_rows-In s db r m =
    let (i, h) =
      In-of_In-filter (λ row. row.spec_id == s) r db.task_runtime (In-of_In-order_by _ r _ m) in
    (i, (eq_iff r.spec_id s).0 h)

pub In-spec_rows :
    (s : SpecId) (db : Db) (r : TaskRuntimeRow)
    → In r db.task_runtime
    → r.spec_id ≡ s
    → In r (spec_rows s db)
In-spec_rows s db r m e =
    In-order_by _ r _ (In-filter (λ row. row.spec_id == s) r db.task_runtime m ((eq_iff _ _).1 e))

module _ {db : Db} (o : StoreOk db) (s : SpecId) where
  pub spec_rows-Readable : Readable (spec_rows s db)
  spec_rows-Readable r m =
      let h = All-In RowOk db.task_runtime o.tasks.consistent r (spec_rows-In s db r m).0 in
      (h.state, h.text)

  pub spec_rows-Functional : Functional (spec_rows s db)
  spec_rows-Functional a b ma mb e =
      Unique-In db.task_runtime a b o.tasks.unique (spec_rows-In s db a ma).0
        (spec_rows-In s db b mb).0 e

collect_ids_ok :
    (ss : List String) → ((x : String) → In x ss → new_task_id x ≡ ok x) → collect_ids ss ≡ ok ss
unfolding collect_ids
collect_ids_ok [] h = refl
collect_ids_ok (x ∷ ss) h = rw (h x (inl refl), collect_ids_ok ss (λ y m. h y (inr m)))

-- The dependencies of a task, as `deps_of` orders them.
abbrev pub deps_list : TaskId → Db → List TaskId
deps_list t db =
    order_by text_leb (map (λ row. row.depends_on) (filter (λ row. row.task_id == t) db.task_deps))

pub deps_list-DependsOn : (t d : TaskId) (db : Db) → In d (deps_list t db) ↔ DependsOn db t d
deps_list-DependsOn t d db = (
  λ m.
      let (e, i, p) =
        In-of_In-map (λ row. row.depends_on) d (filter (λ row. row.task_id == t) db.task_deps)
          (In-of_In-order_by text_leb d _ m) in
      let (k, h) = In-of_In-filter (λ row. row.task_id == t) e db.task_deps i in
      (e, k, (eq_iff e.task_id t).0 h, sym p),
  λ w. In-order_by text_leb d _ (
      subst
        (λ x. In x (map (λ row. row.depends_on) (filter (λ row. row.task_id == t) db.task_deps)))
        w.3
        (In-map (λ row. row.depends_on) w.0 _
          (In-filter (λ row. row.task_id == t) w.0 db.task_deps w.1 ((eq_iff _ _).1 w.2)))),
)

pub deps_of_ok :
    {db : Db} (o : StoreOk db) (t : TaskId) → TaskDeps.deps_of t db ≡ (ok (deps_list t db), db)
unfolding TaskDeps.deps_of
deps_of_ok {db} o t = rw (
    collect_ids_ok (deps_list t db) (λ d m.
      let (e, i, _, q) = (deps_list-DependsOn t d db).0 m in
      rw (← q)
        (All-In (λ x. new_task_id x.depends_on ≡ ok x.depends_on) db.task_deps o.dep_ids e i)))

-- The test that the loop makes of a row, without its effects.
abbrev is_candidate : StateById → Db → TaskRuntimeRow → Bool
is_candidate m db row =
    is_not_started (get m row.task_id) && all_deps_passing m (deps_list row.task_id db)

parse_task_id_ok : (t : String) → new_task_id t ≡ ok t → parse_task_id t ≡ ok t
unfolding parse_task_id
parse_task_id_ok t e = rw e

collect_ready_ok :
    {db : Db} (o : StoreOk db) (m : StateById) (rows : List TaskRuntimeRow)
    → ((r : TaskRuntimeRow) → In r rows → new_task_id r.task_id ≡ ok r.task_id)
    → collect_ready m rows db ≡ (ok (map (λ r. r.task_id) (filter (is_candidate m db) rows)), db)
unfolding collect_ready
collect_ready_ok o m [] h = refl
collect_ready_ok {db} o m (row ∷ rows) h =
    let ih = collect_ready_ok o m rows (λ r i. h r (inr i)) in
    elim (Bool-cases (is_not_started (get m row.task_id))) [
      | inr n ↦ rw (n, ih)
      | inl y ↦ elim (Bool-cases (all_deps_passing m (deps_list row.task_id db))) [
        | inl t ↦
            rw (y, parse_task_id_ok row.task_id (h row (inl refl)), deps_of_ok o row.task_id, ih, t)
        | inr f ↦
            rw (y, parse_task_id_ok row.task_id (h row (inl refl)), deps_of_ok o row.task_id, ih, f)
      ]
    ]

module _ {db : Db} (o : StoreOk db) (s : SpecId) (M : StateById)
    (d : Describes M (spec_rows s db)) where
  TaskIn-map : (t : TaskId) (state : TaskState) → get M t ≡ some state → TaskIn s db t state
  TaskIn-map t state g =
      let (r, i, n, a) = d.sound t state g in
      let (stored, q) = spec_rows-In s db r i in
      record { row = r; stored = stored; of_spec = q; named = n; stands = a }

  map_of_task : (t : TaskId) (state : TaskState) → TaskIn s db t state → get M t ≡ some state
  map_of_task t state w =
      subst (λ x. get M x ≡ some state) w.named
        (d.complete w.row state (In-spec_rows s db w.row w.stored w.of_spec) w.stands)

  is_passing_iff : (t : TaskId) → (is_passing (get M t) ≡ true) ↔ TaskIn s db t TaskState.passing
  is_passing_iff t = (
    λ h. TaskIn-map t TaskState.passing (ground (arith, h)),
    λ w. rw (map_of_task t TaskState.passing w),
  )

  is_not_started_iff :
      (t : TaskId) → (is_not_started (get M t) ≡ true) ↔ TaskIn s db t TaskState.not_started
  is_not_started_iff t = (
    λ h. TaskIn-map t TaskState.not_started (ground (arith, h)),
    λ w. rw (map_of_task t TaskState.not_started w),
  )

  candidate-IsReady :
      (row : TaskRuntimeRow) → is_candidate M db row ≡ true → IsReady s db row.task_id
  candidate-IsReady row h = record {
    waiting = (is_not_started_iff row.task_id).0 (ground (arith, h));
    unblocked = λ x w. (is_passing_iff x).0 (
        all-In (λ dep. is_passing (get M dep)) (deps_list row.task_id db) (ground (arith, h)) x
          ((deps_list-DependsOn row.task_id x db).1 w));
  }

  ready_candidate : (row : TaskRuntimeRow) → IsReady s db row.task_id → is_candidate M db row ≡ true
  ready_candidate row w = rw ((is_not_started_iff row.task_id).1 w.waiting) (
      all_of_In (λ dep. is_passing (get M dep)) (deps_list row.task_id db)
        λ x m. (is_passing_iff x).1 (w.unblocked x ((deps_list-DependsOn row.task_id x db).0 m)))

  candidates-IsReady :
      (t : TaskId)
      → In t (map (λ r. r.task_id) (filter (is_candidate M db) (spec_rows s db))) ↔ IsReady s db t
  candidates-IsReady t = (
    λ m.
        let (r, i, e) =
          In-of_In-map (λ r. r.task_id) t (filter (is_candidate M db) (spec_rows s db)) m in
        let (_, h) = In-of_In-filter (is_candidate M db) r (spec_rows s db) i in
        rw e (candidate-IsReady r h),
    λ w.
        let r = w.waiting.row in
        subst (λ x. In x (map (λ r. r.task_id) (filter (is_candidate M db) (spec_rows s db))))
          w.waiting.named
          (In-map (λ r. r.task_id) r _
            (In-filter (is_candidate M db) r (spec_rows s db)
              (In-spec_rows s db r w.waiting.stored w.waiting.of_spec)
              (ready_candidate r (rw w.waiting.named w)))),
  )

-- On a consistent store `ready_tasks` succeeds and changes nothing, and it returns a task exactly
-- if the task is one of the spec that has not started, and each task that it depends on is one of
-- the spec that has passed.
pub ready_tasks-IsReady :
    {db : Db} (s : SpecId)
    → StoreOk db
    → (ready : List TaskId) × (ready_tasks s db ≡ (ok ready, db))
      × ((t : TaskId) → In t ready ↔ IsReady s db t)
unfolding ready_tasks TaskRuntime.tasks_for_spec
ready_tasks-IsReady {db} s o =
    let (M, p) = index_states_total [] (spec_rows s db) (spec_rows-Readable o s) in
    let d =
      index_states-Describes (spec_rows s db) M (spec_rows-Readable o s) (spec_rows-Functional o s)
        p in
    (
      map (λ r. r.task_id) (filter (is_candidate M db) (spec_rows s db)),
      rw p (
          collect_ready_ok o M (spec_rows s db) λ r i.
            All-In (λ x. new_task_id x.task_id ≡ ok x.task_id) db.task_runtime o.task_ids r
              (spec_rows-In s db r i).0),
      candidates-IsReady o s M d,
    )
