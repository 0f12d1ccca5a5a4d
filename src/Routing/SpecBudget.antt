-- ===== src/Routing/SpecBudget.antt =====
-- src/service/routing.rs: the loops of specs and their caps, over sequences of routings.
use boi.Prelude.{
  ℕ, ◌+◌, ◌<◌, String, List, [], ◌∷◌, true, false, Option, none, some, ok, ◌≡◌, inl, inr, refl, ap,
  ◌∙◌, arith, ltb, if◌then◌else◌, Bool-cases,
}
use boi.Types.Ids.{SpecId}
use boi.Types.Verdict.{VerdictOutcome, WorkerVerdict}
use boi.Config.Phase.{PhaseDef, VerdictTag, Phases, phase_named}
use boi.Config.Pipeline.{PipelineDef}
use boi.Repo.Db.{Db}
use boi.Repo.SpecRuntime.{SpecIterationCounter, plan_critique, spec_review}
use boi.Adjustment.{clamp_u32}
use boi.Routing
use boi.Routing.{
  route_spec, route_next, redo_target, spec_counter_for, spec_cap_for, spec_cap_failure, SpecRoute,
  run_spec_phase, spec_cap_exceeded,
}
use boi.Routing.SpecCounters.{
  used, charged, charge, charges_of, charges, route_all, value-bump, value-bump_self, find-bumped,
  increment_iteration_lem, route_spec-charges, stored,
}

used-charged :
    (c : SpecIterationCounter) (o : Option SpecIterationCounter) (s : SpecId) (db : Db) (n : ℕ)
    → used c s db ≡ some n
    → used c s (charged o s db) ≡ some (charges_of c o + n)
used-charged c none s db n h = h ∙ ap some (omega arith)
used-charged c (some d) s db n h =
    let (row, f, e) = stored c s db n h in
    rw (find-bumped d s db.spec_runtime row f, value-bump c d row, e) refl

used-route_all :
    (c : SpecIterationCounter) (s : SpecId) (p : PipelineDef) (phases : Phases)
    (steps : List (String × WorkerVerdict)) (db : Db) (n : ℕ)
    → used c s db ≡ some n
    → used c s (route_all s p phases steps db) ≡ some (charges c phases steps + n)
used-route_all c s p phases [] db n h = h ∙ ap some (omega arith)
used-route_all c s p phases ((name, v) ∷ steps) db n h =
    let (row, f, e) = stored c s db n h in
    let k = charges_of c (charge phases name v.outcome) in
    let q : used c s (route_spec s name v p phases db).1 ≡ some (k + n) =
      rw (route_spec-charges s db row f name v p phases)
        (used-charged c (charge phases name v.outcome) s db n h) in
    used-route_all c s p phases steps (route_spec s name v p phases db).1 (k + n) q
    ∙ ap some (omega arith)

cap_small : (c : SpecIterationCounter) → spec_cap_for c < 100
unfolding spec_cap_for
cap_small plan_critique = omega arith
cap_small spec_review = omega arith

past : (cap n : ℕ) → cap < 100 → ltb cap (clamp_u32 (n + 1)) ≡ true → ltb n cap ≡ false
past cap n h e = ground arith

left : (cap n : ℕ) → cap < 100 → ltb cap (clamp_u32 (n + 1)) ≡ false → ltb n cap ≡ true
left cap n h e = ground arith

module _ (s : SpecId) (p : PipelineDef) (phases : Phases) (name : String) (def : PhaseDef)
    (v : WorkerVerdict) (known : phase_named phases name ≡ some def) where
  redo_answer :
      (c : SpecIterationCounter) (reason : String) (db : Db) (n : ℕ)
      → spec_counter_for name ≡ some c
      → v.outcome ≡ VerdictOutcome.redo reason
      → used c s db ≡ some n
      → (route_spec s name v p phases db).0
        ≡ ok (
            if ltb n (spec_cap_for c)
            then run_spec_phase (redo_target name (route_next def VerdictTag.redo) p)
            else spec_cap_exceeded (spec_cap_failure c (clamp_u32 (n + 1)) v))
  unfolding route_spec Routing.route_spec_outcome Routing.redo_spec Routing.spec_repo_increment
  redo_answer c reason db n h o u =
      let (row, f, e) = stored c s db n u in
      elim (Bool-cases (ltb (spec_cap_for c) (clamp_u32 (n + 1)))) [
        | inl y ↦
            rw
              (
                known,
                o,
                h,
                increment_iteration_lem s db row f c,
                value-bump_self c row,
                e,
                y,
                past (spec_cap_for c) n (cap_small c) y,
              )
              refl
        | inr x ↦
            rw
              (
                known,
                o,
                h,
                increment_iteration_lem s db row f c,
                value-bump_self c row,
                e,
                x,
                left (spec_cap_for c) n (cap_small c) x,
              )
              refl
      ]

  -- The cap of a loop of a spec is a budget over any sequence of routings of the spec. For a known
  -- phase of a loop and a stored spec whose counter of the loop stands at `n`, whatever phases and
  -- verdicts are routed for the spec first, a `Redo` on the phase runs the target of the redo if
  -- `n` and the `Redo`s that were charged to the loop are below the cap, and otherwise answers
  -- that the cap is exceeded, with the loop's failure.
  pub spec_redo_budget :
      (c : SpecIterationCounter) (reason : String) (steps : List (String × WorkerVerdict)) (db : Db)
      (n : ℕ)
      → spec_counter_for name ≡ some c
      → v.outcome ≡ VerdictOutcome.redo reason
      → used c s db ≡ some n
      → (route_spec s name v p phases (route_all s p phases steps db)).0
        ≡ ok (
            if ltb (charges c phases steps + n) (spec_cap_for c)
            then run_spec_phase (redo_target name (route_next def VerdictTag.redo) p)
            else spec_cap_exceeded
                (spec_cap_failure c (clamp_u32 (charges c phases steps + n + 1)) v))
  spec_redo_budget c reason steps db n h o u =
      redo_answer c reason (route_all s p phases steps db) (charges c phases steps + n) h o
        (used-route_all c s p phases steps db n u)
