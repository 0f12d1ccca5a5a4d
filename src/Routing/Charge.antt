-- ===== src/Routing/Charge.antt =====
-- src/service/routing.rs: the counter that a routing of a task charges.
use boi.Prelude.{
  ℕ, ◌+◌, ◌<◌, ◌||◌, String, Option, none, some, ◌≡◌, inl, inr, refl, arith, ◌==◌, find, ltb,
  if◌then◌else◌, Bool-cases, Option-cases, Result-cases,
}
use boi.Types.Ids.{TaskId, new_spec_id}
use boi.Types.Verdict.{VerdictOutcome, WorkerVerdict}
use boi.Config.Phase.{PhaseDef, VerdictTag, Phases, phase_named}
use boi.Repo.Db.{Db, TaskRuntimeRow}
use boi.Repo.TaskRuntime
use boi.Repo.TaskRuntime.{IterationCounter, has_id}
use boi.Repo.PhaseRuns
use boi.Adjustment
use boi.Adjustment.{
  is_side_chain_phase, latest_failure_detail, enter_side_chain, cap_task_adjust, clamp_u32,
}
use boi.Routing.{counter_for, route_next}
use boi.Routing.Task
use boi.Routing.Task.{route_task, into_side_chain}
use boi.Routing.Counters.{bumped, increment_iteration_lem}

abbrev into_chain : Option String → Option IterationCounter
into_chain none = none
into_chain (some next) =
    if next == "propose_adjustment" then some IterationCounter.task_adjust else none

-- The charge of a phase with a definition.
abbrev pub charge_known : String → VerdictOutcome → PhaseDef → Option IterationCounter
charge_known name (VerdictOutcome.redo _) def =
    if is_side_chain_phase name then some IterationCounter.task_adjust else counter_for name
charge_known name (VerdictOutcome.fail _ _ _) def = into_chain (route_next def VerdictTag.fail)
charge_known name _ def = none

abbrev pub charge_reviewed : VerdictOutcome → Option IterationCounter
charge_reviewed (VerdictOutcome.redo _) = some IterationCounter.task_adjust
charge_reviewed _ = none

abbrev pub charge_found : String → VerdictOutcome → Option PhaseDef → Option IterationCounter
charge_found name outcome none = none
charge_found name outcome (some def) = charge_known name outcome def

-- The loop that a routing counts against, read off the phase and the verdict.
abbrev pub charge : Phases → String → VerdictOutcome → Option IterationCounter
charge phases name outcome =
    if name == "review_adjustment"
    then charge_reviewed outcome
    else charge_found name outcome (phase_named phases name)

abbrev pub charged : Option IterationCounter → TaskId → Db → Db
charged none t db = db
charged (some c) t db = bumped c t db

first_detail-pure : (t : TaskId) (db : Db) → (latest_failure_detail t db).1 ≡ db
unfolding latest_failure_detail TaskRuntime.fetch PhaseRuns.fetch_history_for_spec
    Adjustment.corrupt_spec
first_detail-pure t db = elim (Option-cases (find (has_id t) db.task_runtime)) [
  | inl e ↦ rw e
  | inr (row, e) ↦ elim (Result-cases (new_spec_id row.spec_id)) [
    | inl (s, p) ↦ rw (e, p)
    | inr (x, p) ↦ rw (e, p)
  ]
]

-- A cap is far below the clamp of a counter.
pub ltb-clamp_u32 : (cap n : ℕ) → cap < 100 → ltb cap (clamp_u32 n) ≡ ltb cap n
ltb-clamp_u32 cap n h = ground arith

module _ (t : TaskId) (db : Db) (row : TaskRuntimeRow)
    (h : find (has_id t) db.task_runtime ≡ some row) where
  pub enter_side_chain-charges :
      (enter_side_chain t db).1 ≡ bumped IterationCounter.task_adjust t db
  unfolding enter_side_chain
  enter_side_chain-charges =
      let n = row.iterations_task_adjust + 1 in
      elim (Bool-cases (ltb 3 (clamp_u32 n))) [
        | inr f ↦ rw (increment_iteration_lem t db row h IterationCounter.task_adjust, f)
        | inl y ↦
            let same = first_detail-pure t (bumped IterationCounter.task_adjust t db) in
            elim (Result-cases
              (latest_failure_detail t (bumped IterationCounter.task_adjust t db)).0) [
                | inl (d, p) ↦
                    rw (increment_iteration_lem t db row h IterationCounter.task_adjust, y, p, same)
                | inr (x, p) ↦
                    rw (increment_iteration_lem t db row h IterationCounter.task_adjust, y, p, same)
              ]
      ]

  pub into_side_chain-charges : (into_side_chain t db).1 ≡ bumped IterationCounter.task_adjust t db
  unfolding into_side_chain
  into_side_chain-charges = elim (Result-cases (enter_side_chain t db).0) [
    | inl (a, p) ↦ rw p enter_side_chain-charges
    | inr (x, p) ↦ rw p enter_side_chain-charges
  ]

  redo_loop-charges :
      (name : String) (v : WorkerVerdict)
      → (Task.redo_loop t name v db).1 ≡ charged (counter_for name) t db
  unfolding Task.redo_loop Task.repo_increment
  redo_loop-charges name v = elim (Option-cases (counter_for name)) [
    | inl e ↦ rw e
    | inr (c, e) ↦ rw (e, increment_iteration_lem t db row h c)
  ]

  route_known-charges :
      (name : String) (outcome : VerdictOutcome) (v : WorkerVerdict) (def : PhaseDef)
      → (Task.route_task_outcome t name outcome v def db).1
        ≡ charged (charge_known name outcome def) t db
  unfolding Task.route_task_outcome Task.redo_task Task.fail_task
  route_known-charges name (VerdictOutcome.passing _) v def = refl
  route_known-charges name (VerdictOutcome.redo _) v def =
      elim (Bool-cases (is_side_chain_phase name)) [
        | inl y ↦ rw y into_side_chain-charges
        | inr n ↦ rw n (redo_loop-charges name v)
      ]
  route_known-charges name (VerdictOutcome.fail e w f) v def =
      elim (Option-cases (route_next def VerdictTag.fail)) [
        | inl p ↦ elim (Bool-cases (Task.is_worker def.kind || is_side_chain_phase name)) [
          | inl y ↦ rw (p, y)
          | inr n ↦ rw (p, n)
        ]
        | inr (next, p) ↦ elim (Bool-cases (next == "propose_adjustment")) [
          | inl y ↦ rw (p, y) into_side_chain-charges
          | inr n ↦ rw (p, n)
        ]
      ]
  route_known-charges name (VerdictOutcome.blocked _ _) v def = refl
  route_known-charges name VerdictOutcome.canceled v def = refl

  reviewed-charges :
      (outcome : VerdictOutcome)
      → (Task.route_reviewed t outcome db).1 ≡ charged (charge_reviewed outcome) t db
  unfolding Task.route_reviewed Adjustment.route_after_review_adjustment into_side_chain
  reviewed-charges (VerdictOutcome.passing _) = refl
  reviewed-charges (VerdictOutcome.redo _) = into_side_chain-charges
  reviewed-charges (VerdictOutcome.fail _ _ _) = refl
  reviewed-charges (VerdictOutcome.blocked _ _) = refl
  reviewed-charges VerdictOutcome.canceled = refl

  -- Routing a stored task bumps the counter that it charges, and writes nothing else.
  pub route_task-charges :
      (name : String) (v : WorkerVerdict) (phases : Phases)
      → (route_task name t v phases db).1 ≡ charged (charge phases name v.outcome) t db
  unfolding route_task Task.route_known
  route_task-charges name v phases = elim (Bool-cases (name == "review_adjustment")) [
    | inl y ↦ rw y (reviewed-charges v.outcome)
    | inr n ↦ elim (Option-cases (phase_named phases name)) [
      | inl e ↦ rw (n, e)
      | inr (def, e) ↦ rw (n, e) (route_known-charges name v.outcome v def)
    ]
  ]
