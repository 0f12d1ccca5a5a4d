-- ===== src/Routing/Budget.antt =====
-- src/service/routing.rs: the loops of tasks and their caps, over sequences of routings.
use boi.Prelude.{
  ℕ, ◌+◌, String, List, [], ◌∷◌, false, Option, none, some, ◌≡◌, ◌≢◌, inl, inr, refl, ap, sym, ◌∙◌,
  arith, ◌==◌, find, ltb, if◌then◌else◌, Bool-cases, Option-cases, ==-false,
}
use boi.Types.Ids.{TaskId}
use boi.Types.Verdict.{WorkerVerdict}
use boi.Config.Phase.{Phases}
use boi.Repo.Db.{Db, TaskRuntimeRow}
use boi.Repo.TaskRuntime.{IterationCounter, has_id, counter_value}
use boi.Adjustment.{is_side_chain_phase}
use boi.Routing.{counter_for, TaskAction}
use boi.Routing.Task
use boi.Routing.Task.{route_task, into_side_chain}
use boi.Routing.Counters.{used, same_counter, used-bumped, spec_of, spec_of-bumped}
use boi.Routing.Charge.{charge, charged, route_task-charges}

-- One routing after the other of a task: the phases and their verdicts, the first one first.
abbrev pub route_all : TaskId → Phases → List (String × WorkerVerdict) → Db → Db
route_all t phases [] db = db
route_all t phases ((name, v) ∷ steps) db =
    route_all t phases steps (route_task name t v phases db).1

abbrev pub charges_of : IterationCounter → Option IterationCounter → ℕ
charges_of c none = 0
charges_of c (some d) = if same_counter c d then 1 else 0

-- How many of the routings are charged to the counter.
abbrev pub charges : IterationCounter → Phases → List (String × WorkerVerdict) → ℕ
charges c phases [] = 0
charges c phases ((name, v) ∷ steps) =
    charges_of c (charge phases name v.outcome) + charges c phases steps

pub stored :
    (c : IterationCounter) (t : TaskId) (db : Db) (n : ℕ)
    → used c t db ≡ some n
    → (row : TaskRuntimeRow) × (find (has_id t) db.task_runtime ≡ some row)
      × (counter_value c row ≡ n)
stored c t db n h = elim (Option-cases (find (has_id t) db.task_runtime)) [
  | inl e ↦ absurd (cc (rw e at h))
  | inr (row, e) ↦ (row, e, ground (arith, rw e at h))
]

used-charged :
    (c : IterationCounter) (o : Option IterationCounter) (t : TaskId) (db : Db) (n : ℕ)
    → used c t db ≡ some n
    → used c t (charged o t db) ≡ some (charges_of c o + n)
used-charged c none t db n h = h ∙ ap some (omega arith)
used-charged c (some d) t db n h =
    let (row, f, e) = stored c t db n h in
    let q = used-bumped t db row f c d in
    elim (Bool-cases (same_counter c d)) [
      | inl y ↦ rw y (rw (y, e) at q ∙ ap some (omega arith))
      | inr x ↦ rw x (rw (x, e) at q ∙ ap some (omega arith))
    ]

pub used-route_all :
    (c : IterationCounter) (t : TaskId) (phases : Phases) (steps : List (String × WorkerVerdict))
    (db : Db) (n : ℕ)
    → used c t db ≡ some n
    → used c t (route_all t phases steps db) ≡ some (charges c phases steps + n)
used-route_all c t phases [] db n h = h ∙ ap some (omega arith)
used-route_all c t phases ((name, v) ∷ steps) db n h =
    let (row, f, e) = stored c t db n h in
    let k = charges_of c (charge phases name v.outcome) in
    let q : used c t (route_task name t v phases db).1 ≡ some (k + n) =
      rw (route_task-charges t db row f name v phases)
        (used-charged c (charge phases name v.outcome) t db n h) in
    used-route_all c t phases steps (route_task name t v phases db).1 (k + n) q
    ∙ ap some (omega arith)

pub stored_spec :
    (t : TaskId) (db : Db) (s : String)
    → spec_of t db ≡ some s
    → (row : TaskRuntimeRow) × (find (has_id t) db.task_runtime ≡ some row) × (row.spec_id ≡ s)
stored_spec t db s h = elim (Option-cases (find (has_id t) db.task_runtime)) [
  | inl e ↦ absurd (cc (rw e at h))
  | inr (row, e) ↦ (row, e, ground (arith, rw e at h))
]

spec_of-charged :
    (o : Option IterationCounter) (t : TaskId) (db : Db) (s : String)
    → spec_of t db ≡ some s
    → spec_of t (charged o t db) ≡ some s
spec_of-charged none t db s h = h
spec_of-charged (some d) t db s h =
    let (row, f, e) = stored_spec t db s h in spec_of-bumped t db row f d ∙ ap some e

pub spec_of-route_all :
    (t : TaskId) (phases : Phases) (steps : List (String × WorkerVerdict)) (db : Db) (s : String)
    → spec_of t db ≡ some s
    → spec_of t (route_all t phases steps db) ≡ some s
spec_of-route_all t phases [] db s h = h
spec_of-route_all t phases ((name, v) ∷ steps) db s h =
    let (row, f, e) = stored_spec t db s h in
    spec_of-route_all t phases steps (route_task name t v phases db).1 s (
      rw (route_task-charges t db row f name v phases)
        (spec_of-charged (charge phases name v.outcome) t db s h))

not_counted :
    (name other : String) {c : IterationCounter}
    → counter_for name ≡ some c
    → counter_for other ≡ none
    → name ≢ other
not_counted name other h k e = cc (h, k, ap counter_for e)

pub counter_for-plain :
    (name : String) {c : IterationCounter}
    → counter_for name ≡ some c
    → ((name == "review_adjustment") ≡ false) × (is_side_chain_phase name ≡ false)
unfolding counter_for
counter_for-plain name h =
    let p = not_counted name "propose_adjustment" h refl in
    let r = not_counted name "review_adjustment" h refl in
    (
      ==-false name "review_adjustment" r,
      rw
          (
            ==-false "propose_adjustment" name (λ e. p (sym e)),
            ==-false "review_adjustment" name (λ e. r (sym e)),
          )
          refl,
    )

pub within :
    (cap n : ℕ) (run block : TaskAction)
    → (if ltb cap (n + 1) then block else run) ≡ (if ltb n cap then run else block)
within cap n run block = ground arith
