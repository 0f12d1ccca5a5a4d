-- ===== src/Routing/Targets.antt =====
-- src/service/routing.rs: the phases that `route_spec` can answer.
use boi.Prelude.{
  String, List, [], ◌∷◌, true, Option, none, some, ok, ◌≡◌, inl, inr, ap, sym, subst, arith, eq_iff,
  In, ltb, Bool-cases, Option-cases, Result-cases,
}
use boi.Types.Ids.{SpecId}
use boi.Types.Verdict.{VerdictOutcome, WorkerVerdict}
use boi.Config.Phase.{PhaseDef, VerdictTag, Phases, phase_named}
use boi.Config.Pipeline.{PipelinePhase, phase, tasks, PipelineDef}
use boi.Repo.Db.{Db}
use boi.Repo.SpecRuntime
use boi.Repo.SpecRuntime.{SpecIterationCounter}
use boi.Adjustment.{clamp_u32}
use boi.Routing
use boi.Routing.{
  SpecRoute, run_spec_phase, route_spec, next_in, is_spec_phase, is_spec_phase_in, names_phase,
  entry_route, redo_target, fail_route, route_next, redo_spec, spec_counter_for, spec_cap_for,
  next_spec_phase,
}

names_phase-eq : (name : String) (x : PipelinePhase) → names_phase name x ≡ true → x ≡ phase name
names_phase-eq name (phase n) h = ap phase ((eq_iff n name).0 h)
names_phase-eq name tasks h = cc

entry_route-In :
    (xs : List PipelinePhase) (next : String)
    → entry_route xs ≡ run_spec_phase next
    → In (phase next) xs
entry_route-In [] next h = cc
entry_route-In (phase n ∷ xs) next h = inl (sym (ap phase (ground arith)))
entry_route-In (tasks ∷ xs) next h = cc

next_in-In :
    (name : String) (xs : List PipelinePhase) (next : String)
    → next_in name xs ≡ run_spec_phase next
    → In (phase next) xs
unfolding next_in
next_in-In name [] next h = cc
next_in-In name (x ∷ xs) next h = elim (Bool-cases (names_phase name x)) [
  | inl y ↦ inr (entry_route-In xs next (rw y at h))
  | inr n ↦ inr (next_in-In name xs next (rw n at h))
]

is_spec_phase_in-In :
    (name : String) (xs : List PipelinePhase) → is_spec_phase_in name xs ≡ true → In (phase name) xs
unfolding is_spec_phase_in
is_spec_phase_in-In name [] h = cc
is_spec_phase_in-In name (x ∷ xs) h = elim (Bool-cases (names_phase name x)) [
  | inl y ↦ inl (sym (names_phase-eq name x y))
  | inr n ↦ inr (is_spec_phase_in-In name xs (rw n at h))
]

module _ (spec_id : SpecId) (name : String) (p : PipelineDef)
    (here : In (phase name) p.spec_phases) where
  redo_target-In : (o : Option String) → In (phase (redo_target name o p)) p.spec_phases
  unfolding is_spec_phase
  redo_target-In none = here
  redo_target-In (some target) = elim (Bool-cases (is_spec_phase_in target p.spec_phases)) [
    | inl y ↦ rw y (is_spec_phase_in-In target p.spec_phases y)
    | inr n ↦ rw n here
  ]

  fail_route-In :
      (o : Option String) (next : String)
      → fail_route o p ≡ run_spec_phase next
      → In (phase next) p.spec_phases
  unfolding is_spec_phase
  fail_route-In none next h = cc
  fail_route-In (some target) next h = elim (Bool-cases (is_spec_phase_in target p.spec_phases)) [
    | inl y ↦
        let e : target ≡ next = ground (arith, rw y at h) in
        subst (λ n. In (phase n) p.spec_phases) e (is_spec_phase_in-In target p.spec_phases y)
    | inr n ↦ absurd (cc (rw n at h))
  ]

  redo_spec-same :
      (o : Option SpecIterationCounter) (target next : String) (v : WorkerVerdict) (db : Db)
      → (redo_spec spec_id o target v db).0 ≡ ok (run_spec_phase next)
      → target ≡ next
  unfolding redo_spec Routing.spec_repo_increment
  redo_spec-same none target next v db h = ground arith
  redo_spec-same (some c) target next v db h =
      elim (Result-cases (SpecRuntime.increment_iteration spec_id c db).0) [
        | inr (x, e) ↦ absurd (cc (rw e at h))
        | inl (n, e) ↦ elim (Bool-cases (ltb (spec_cap_for c) (clamp_u32 n))) [
          | inl y ↦ absurd (cc (rw (e, y) at h))
          | inr x ↦ ground (arith, rw (e, x) at h)
        ]
      ]

  outcome-In :
      (outcome : VerdictOutcome) (v : WorkerVerdict) (def : PhaseDef) (db : Db) (next : String)
      → (Routing.route_spec_outcome spec_id name outcome v p def db).0 ≡ ok (run_spec_phase next)
      → In (phase next) p.spec_phases
  unfolding Routing.route_spec_outcome next_spec_phase
  outcome-In (VerdictOutcome.passing _) v def db next h =
      next_in-In name p.spec_phases next (ground arith)
  outcome-In (VerdictOutcome.redo _) v def db next h =
      let o = route_next def VerdictTag.redo in
      let e = redo_spec-same (spec_counter_for name) (redo_target name o p) next v db h in
      subst (λ n. In (phase n) p.spec_phases) e (redo_target-In o)
  outcome-In (VerdictOutcome.fail _ _ _) v def db next h =
      fail_route-In (route_next def VerdictTag.fail) next (ground arith)
  outcome-In (VerdictOutcome.blocked _ _) v def db next h = absurd (cc h)
  outcome-In VerdictOutcome.canceled v def db next h = absurd (cc h)

  -- The spec's routing stays on the spec's list: whatever the verdict on a phase of the list, a
  -- phase that `route_spec` runs next is a spec phase of the pipeline.
  pub route_spec-In :
      (v : WorkerVerdict) (phases : Phases) (db : Db) (next : String)
      → (route_spec spec_id name v p phases db).0 ≡ ok (run_spec_phase next)
      → In (phase next) p.spec_phases
  unfolding route_spec
  route_spec-In v phases db next h = elim (Option-cases (phase_named phases name)) [
    | inl e ↦ absurd (cc (rw e at h))
    | inr (def, e) ↦ outcome-In v.outcome v def db next (rw e at h)
  ]
