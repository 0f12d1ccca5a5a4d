-- ===== src/Routing/SpecCounters.antt =====
-- src/service/routing.rs: the counters of a spec, and the one that a routing of it charges.
use boi.Prelude.{
  ℕ, ◌+◌, String, List, [], ◌∷◌, Bool, true, false, Option, none, some, ok, ◌≡◌, inl, inr, refl,
  arith, ◌==◌, find, ltb, if◌then◌else◌, Bool-cases, Option-cases,
}
use boi.Types.Ids.{SpecId}
use boi.Types.Verdict.{VerdictOutcome, WorkerVerdict}
use boi.Config.Phase.{PhaseDef, Phases, phase_named}
use boi.Config.Pipeline.{PipelineDef}
use boi.Repo.Db.{Db, SpecRuntimeRow}
use boi.Repo.SpecRuntime
use boi.Repo.SpecRuntime.{
  SpecIterationCounter, plan_critique, spec_review, has_id, write_row, counter_value, bump,
}
use boi.Adjustment.{clamp_u32}
use boi.Routing
use boi.Routing.{
  route_spec, route_next, redo_target, spec_counter_for, spec_cap_for, spec_cap_failure, SpecRoute,
  run_spec_phase, spec_cap_exceeded,
}

abbrev pub value_in : SpecIterationCounter → Option SpecRuntimeRow → Option ℕ
value_in c none = none
value_in c (some row) = some (counter_value c row)

-- What the counter of the spec stands at, if the spec is stored.
abbrev pub used : SpecIterationCounter → SpecId → Db → Option ℕ
used c s db = value_in c (find (has_id s) db.spec_runtime)

abbrev pub same_counter : SpecIterationCounter → SpecIterationCounter → Bool
same_counter plan_critique plan_critique = true
same_counter spec_review spec_review = true
same_counter _ _ = false

abbrev pub bumped : SpecIterationCounter → SpecId → Db → Db
bumped c s db = record db { spec_runtime = write_row s (bump c) db.spec_runtime }

abbrev pub charged : Option SpecIterationCounter → SpecId → Db → Db
charged none s db = db
charged (some c) s db = bumped c s db

abbrev pub charge_known : String → VerdictOutcome → Option SpecIterationCounter
charge_known name (VerdictOutcome.redo _) = spec_counter_for name
charge_known name _ = none

abbrev pub charge_found : String → VerdictOutcome → Option PhaseDef → Option SpecIterationCounter
charge_found name outcome none = none
charge_found name outcome (some _) = charge_known name outcome

-- The loop that a routing of the spec counts against: that of the phase, at a `Redo`.
abbrev pub charge : Phases → String → VerdictOutcome → Option SpecIterationCounter
charge phases name outcome = charge_found name outcome (phase_named phases name)

abbrev pub charges_of : SpecIterationCounter → Option SpecIterationCounter → ℕ
charges_of c none = 0
charges_of c (some d) = if same_counter c d then 1 else 0

abbrev pub charges : SpecIterationCounter → Phases → List (String × WorkerVerdict) → ℕ
charges c phases [] = 0
charges c phases ((name, v) ∷ steps) =
    charges_of c (charge phases name v.outcome) + charges c phases steps

-- One routing after the other of a spec.
abbrev pub route_all : SpecId → PipelineDef → Phases → List (String × WorkerVerdict) → Db → Db
route_all s p phases [] db = db
route_all s p phases ((name, v) ∷ steps) db =
    route_all s p phases steps (route_spec s name v p phases db).1

bump_id : (c : SpecIterationCounter) (row : SpecRuntimeRow) → (bump c row).spec_id ≡ row.spec_id
bump_id plan_critique row = refl
bump_id spec_review row = refl

pub value-bump :
    (c d : SpecIterationCounter) (row : SpecRuntimeRow)
    → counter_value c (bump d row) ≡ charges_of c (some d) + counter_value c row
value-bump plan_critique plan_critique row = omega arith
value-bump plan_critique spec_review row = omega arith
value-bump spec_review plan_critique row = omega arith
value-bump spec_review spec_review row = omega arith

pub value-bump_self :
    (c : SpecIterationCounter) (row : SpecRuntimeRow)
    → counter_value c (bump c row) ≡ counter_value c row + 1
value-bump_self plan_critique row = refl
value-bump_self spec_review row = refl

pub find-bumped :
    (c : SpecIterationCounter) (s : SpecId) (rows : List SpecRuntimeRow) (row : SpecRuntimeRow)
    → find (has_id s) rows ≡ some row
    → find (has_id s) (write_row s (bump c) rows) ≡ some (bump c row)
unfolding write_row
find-bumped c s [] row h = cc
find-bumped c s (x ∷ rows) row h = elim (Bool-cases (x.spec_id == s)) [
  | inl y ↦ let e : x ≡ row = ground arith in rw (y, bump_id c x, y, e) refl
  | inr n ↦ rw (n, n) (find-bumped c s rows row (rw n at h))
]

module _ (s : SpecId) (db : Db) (row : SpecRuntimeRow)
    (h : find (has_id s) db.spec_runtime ≡ some row) where
  pub increment_iteration_lem :
      (c : SpecIterationCounter)
      → SpecRuntime.increment_iteration s c db ≡ (ok (counter_value c (bump c row)), bumped c s db)
  unfolding SpecRuntime.increment_iteration SpecRuntime.bump_rows SpecRuntime.fetch
  increment_iteration_lem c = rw (find-bumped c s db.spec_runtime row h)

  outcome-charges :
      (name : String) (outcome : VerdictOutcome) (v : WorkerVerdict) (p : PipelineDef)
      (def : PhaseDef)
      → (Routing.route_spec_outcome s name outcome v p def db).1
        ≡ charged (charge_known name outcome) s db
  unfolding Routing.route_spec_outcome Routing.redo_spec Routing.spec_repo_increment
  outcome-charges name (VerdictOutcome.passing _) v p def = refl
  outcome-charges name (VerdictOutcome.redo _) v p def =
      elim (Option-cases (spec_counter_for name)) [
        | inl e ↦ rw e
        | inr (c, e) ↦
            elim (Bool-cases (ltb (spec_cap_for c) (clamp_u32 (counter_value c (bump c row))))) [
              | inl y ↦ rw (e, increment_iteration_lem c, y)
              | inr n ↦ rw (e, increment_iteration_lem c, n)
            ]
      ]
  outcome-charges name (VerdictOutcome.fail _ _ _) v p def = refl
  outcome-charges name (VerdictOutcome.blocked _ _) v p def = refl
  outcome-charges name VerdictOutcome.canceled v p def = refl

  pub route_spec-charges :
      (name : String) (v : WorkerVerdict) (p : PipelineDef) (phases : Phases)
      → (route_spec s name v p phases db).1 ≡ charged (charge phases name v.outcome) s db
  unfolding route_spec
  route_spec-charges name v p phases = elim (Option-cases (phase_named phases name)) [
    | inl e ↦ rw e
    | inr (def, e) ↦ rw e (outcome-charges name v.outcome v p def)
  ]

pub stored :
    (c : SpecIterationCounter) (s : SpecId) (db : Db) (n : ℕ)
    → used c s db ≡ some n
    → (row : SpecRuntimeRow) × (find (has_id s) db.spec_runtime ≡ some row)
      × (counter_value c row ≡ n)
stored c s db n h = elim (Option-cases (find (has_id s) db.spec_runtime)) [
  | inl e ↦ absurd (cc (rw e at h))
  | inr (row, e) ↦ (row, e, ground (arith, rw e at h))
]
