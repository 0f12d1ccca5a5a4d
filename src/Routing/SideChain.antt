-- ===== src/Routing/SideChain.antt =====
-- src/service/adjustment.rs behind `route_task`: the rounds of the side chain.
use boi.Prelude.{
  ℕ, ◌+◌, ◌<◌, ◌≤◌, String, List, some, ok, ◌≡◌, ◌≢◌, inl, inr, refl, ◌⊎◌, arith, ◌==◌, find, ltb,
  Bool-cases, Option-cases, Result-cases,
}
use boi.Types.Ids.{TaskId, new_spec_id}
use boi.Types.Reasons.{ErrorWhyFix, cap_exceeded}
use boi.Repo.TaskRuntime
use boi.Repo.PhaseRuns
use boi.Types.Verdict.{VerdictOutcome, WorkerVerdict}
use boi.Config.Phase.{PhaseDef, VerdictTag, Phases, phase_named}
use boi.Repo.Db.{Db, TaskRuntimeRow}
use boi.Repo.TaskRuntime.{IterationCounter, has_id, counter_value, bump}
use boi.Adjustment.{
  AdjustmentRoute, is_side_chain_phase, latest_failure_detail, enter_side_chain, clamp_u32,
}
use boi.Adjustment
use boi.Routing.{counter_for, route_next, TaskAction}
use boi.Routing.Task
use boi.Routing.Task.{route_task, into_side_chain}
use boi.Routing.Counters.{used, bumped, increment_iteration_lem, find-bumped, spec_of}
use boi.Routing.Charge.{charge, charge_known, charge_reviewed}
use boi.Routing.Budget.{route_all, charges, stored, used-route_all, spec_of-route_all}

not_adjust : (name : String) → counter_for name ≢ some IterationCounter.task_adjust
unfolding counter_for
not_adjust name h = ground arith

module _ (t : TaskId) (db : Db) where
  detail_found :
      (row : TaskRuntimeRow) (s : String)
      → find (has_id t) db.task_runtime ≡ some row
      → new_spec_id row.spec_id ≡ ok s
      → (d : ErrorWhyFix) × ((latest_failure_detail t db).0 ≡ ok d)
  unfolding latest_failure_detail TaskRuntime.fetch PhaseRuns.fetch_history_for_spec
      Adjustment.corrupt_spec
  detail_found row s f e = elim (Result-cases (latest_failure_detail t db).0) [
    | inl found ↦ found
    | inr (x, p) ↦ absurd (cc (rw (f, e) at p))
  ]

module _ (t : TaskId) (db : Db) where
  -- A round of the chain starts within the cap, and the task is blocked beyond it.
  pub data Round (n : ℕ) : Type 0 where
    again :
        n < 3 → (into_side_chain t db).0 ≡ ok (TaskAction.run_phase "propose_adjustment") → Round n
    over :
        3 ≤ n
        → (d : ErrorWhyFix)
        → (into_side_chain t db).0 ≡ ok (TaskAction.task_blocked (cap_exceeded "task_adjust" 3 d))
        → Round n

  into_side_chain-Round :
      (n : ℕ) (s s' : String)
      → used IterationCounter.task_adjust t db ≡ some n
      → spec_of t db ≡ some s
      → new_spec_id s ≡ ok s'
      → Round n
  unfolding into_side_chain enter_side_chain Task.adjustment_route_to_action
  into_side_chain-Round n s s' u w i =
      let (row, f, e) = stored IterationCounter.task_adjust t db n u in
      let inc = increment_iteration_lem t db row f IterationCounter.task_adjust in
      elim (Bool-cases (ltb 3 (clamp_u32 (n + 1)))) [
        | inr b ↦ again (ground arith) (rw (inc, e, b))
        | inl b ↦
            let g = find-bumped IterationCounter.task_adjust t db.task_runtime row f in
            let same : row.spec_id ≡ s = ground (arith, rw f at w) in
            let (d, r) =
              detail_found t (bumped IterationCounter.task_adjust t db)
                (bump IterationCounter.task_adjust row) s' g (rw same i) in
            over (ground arith) d (rw (inc, e, b, r))
      ]

  known-chain :
      (name : String) (outcome : VerdictOutcome) (v : WorkerVerdict) (def : PhaseDef)
      → charge_known name outcome def ≡ some IterationCounter.task_adjust
      → Task.route_task_outcome t name outcome v def db ≡ into_side_chain t db
  unfolding Task.route_task_outcome Task.redo_task Task.fail_task
  known-chain name (VerdictOutcome.passing _) v def h = cc
  known-chain name (VerdictOutcome.redo _) v def h = elim (Bool-cases (is_side_chain_phase name)) [
    | inl y ↦ rw y
    | inr n ↦ absurd (not_adjust name (rw n at h))
  ]
  known-chain name (VerdictOutcome.fail e w f) v def h =
      elim (Option-cases (route_next def VerdictTag.fail)) [
        | inl p ↦ absurd (cc (rw p at h))
        | inr (next, p) ↦ elim (Bool-cases (next == "propose_adjustment")) [
          | inl y ↦ rw (p, y)
          | inr n ↦ absurd (cc (rw (p, n) at h))
        ]
      ]
  known-chain name (VerdictOutcome.blocked _ _) v def h = cc
  known-chain name VerdictOutcome.canceled v def h = cc

  reviewed-chain :
      (outcome : VerdictOutcome)
      → charge_reviewed outcome ≡ some IterationCounter.task_adjust
      → Task.route_reviewed t outcome db ≡ into_side_chain t db
  unfolding Task.route_reviewed Adjustment.route_after_review_adjustment into_side_chain
  reviewed-chain (VerdictOutcome.passing _) h = cc
  reviewed-chain (VerdictOutcome.redo _) h = refl
  reviewed-chain (VerdictOutcome.fail _ _ _) h = cc
  reviewed-chain (VerdictOutcome.blocked _ _) h = cc
  reviewed-chain VerdictOutcome.canceled h = cc

  -- What is charged to the chain enters it.
  route_task-chain :
      (name : String) (v : WorkerVerdict) (phases : Phases)
      → charge phases name v.outcome ≡ some IterationCounter.task_adjust
      → route_task name t v phases db ≡ into_side_chain t db
  unfolding route_task Task.route_known
  route_task-chain name v phases h = elim (Bool-cases (name == "review_adjustment")) [
    | inl y ↦ rw y (reviewed-chain v.outcome (rw y at h))
    | inr n ↦ elim (Option-cases (phase_named phases name)) [
      | inl e ↦ absurd (cc (rw (n, e) at h))
      | inr (def, e) ↦ rw (n, e) (known-chain name v.outcome v def (rw (n, e) at h))
    ]
  ]

-- The cap of the side chain is a budget over any sequence of routings of a task. For a stored task
-- of a spec with a well-formed id, whose counter of the chain stands at `n`, whatever phases and
-- verdicts are routed for the task first, a verdict that is charged to the chain (a failure that
-- the phase routes to it, or a `Redo` within it) runs `propose_adjustment` if `n` and the rounds
-- that were charged are below three, and otherwise blocks the task with the loop's name and cap.
pub side_chain_budget :
    (t : TaskId) (phases : Phases) (name : String) (v : WorkerVerdict)
    (steps : List (String × WorkerVerdict)) (db : Db) (n : ℕ) (s s' : String)
    → used IterationCounter.task_adjust t db ≡ some n
    → spec_of t db ≡ some s
    → new_spec_id s ≡ ok s'
    → charge phases name v.outcome ≡ some IterationCounter.task_adjust
    → ((charges IterationCounter.task_adjust phases steps + n < 3)
        × ((route_task name t v phases (route_all t phases steps db)).0
            ≡ ok (TaskAction.run_phase "propose_adjustment")))
      ⊎ ((3 ≤ charges IterationCounter.task_adjust phases steps + n)
          × ((d : ErrorWhyFix) × ((route_task name t v phases (route_all t phases steps db)).0
                ≡ ok (TaskAction.task_blocked (cap_exceeded "task_adjust" 3 d)))))
side_chain_budget t phases name v steps db n s s' u w i h =
    let later = route_all t phases steps db in
    let e = route_task-chain t later name v phases h in
    elim (into_side_chain-Round t later (charges IterationCounter.task_adjust phases steps + n) s s'
      (used-route_all IterationCounter.task_adjust t phases steps db n u)
      (spec_of-route_all t phases steps db s w) i) [
        | again small a ↦ inl (small, rw e a)
        | over large d a ↦ inr (large, (d, rw e a))
      ]
