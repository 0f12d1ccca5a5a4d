-- ===== src/Routing/TaskTargets.antt =====
-- src/service/routing.rs: the phases that `route_task` can answer.
use boi.Prelude.{
  String, List, [], ◌∷◌, true, ◌||◌, Option, none, some, ok, ◌≡◌, ◌⊎◌, inl, inr, refl, sym, subst,
  arith, ◌==◌, eq_iff, In, ltb, Bool-cases, Option-cases, Result-cases,
}
use boi.Types.Ids.{TaskId}
use boi.Types.Verdict.{VerdictOutcome, WorkerVerdict}
use boi.Config.Phase.{PhaseDef, VerdictTag, RouteRule, Phases, phase_named, rule_for, same_tag}
use boi.Config.Pipeline.{PipelineDef}
use boi.Repo.Db.{Db}
use boi.Repo.TaskRuntime
use boi.Repo.TaskRuntime.{IterationCounter}
use boi.Adjustment
use boi.Adjustment.{is_side_chain_phase, latest_failure_detail, enter_side_chain, clamp_u32}
use boi.Routing.{TaskAction, counter_for, cap_for, route_next, merge_to_integration}
use boi.Routing.Task
use boi.Routing.Task.{route_task, into_side_chain}
use boi.Routing.Valid.{Known, KnownNext, Valid}

-- A phase that the map knows, or one of the three that the code names itself.
abbrev pub Target : Phases → String → Type 0
Target phases next =
    Known phases next
    ⊎ ((next ≡ merge_to_integration) ⊎ ((next ≡ "propose_adjustment") ⊎ (next ≡ "execute")))

phase_named-Known :
    (phases : Phases) (name : String) (def : PhaseDef)
    → phase_named phases name ≡ some def
    → In (name, def) phases
phase_named-Known [] name def h = cc
phase_named-Known ((n, d) ∷ rest) name def h = elim (Bool-cases (n == name)) [
  | inl y ↦ let e : d ≡ def = ground (arith, rw y at h) in inl (rw ((eq_iff n name).0 y, e) refl)
  | inr x ↦ inr (phase_named-Known rest name def (rw x at h))
]

same_tag-eq : (s t : VerdictTag) → same_tag s t ≡ true → s ≡ t
same_tag-eq VerdictTag.passing VerdictTag.passing h = refl
same_tag-eq VerdictTag.redo VerdictTag.redo h = refl
same_tag-eq VerdictTag.blocked VerdictTag.blocked h = refl
same_tag-eq VerdictTag.fail VerdictTag.fail h = refl
same_tag-eq VerdictTag.passing VerdictTag.redo h = cc
same_tag-eq VerdictTag.passing VerdictTag.blocked h = cc
same_tag-eq VerdictTag.passing VerdictTag.fail h = cc
same_tag-eq VerdictTag.redo VerdictTag.passing h = cc
same_tag-eq VerdictTag.redo VerdictTag.blocked h = cc
same_tag-eq VerdictTag.redo VerdictTag.fail h = cc
same_tag-eq VerdictTag.blocked VerdictTag.passing h = cc
same_tag-eq VerdictTag.blocked VerdictTag.redo h = cc
same_tag-eq VerdictTag.blocked VerdictTag.fail h = cc
same_tag-eq VerdictTag.fail VerdictTag.passing h = cc
same_tag-eq VerdictTag.fail VerdictTag.redo h = cc
same_tag-eq VerdictTag.fail VerdictTag.blocked h = cc

rule_for-In :
    (on : List (VerdictTag × RouteRule)) (tag : VerdictTag) (rule : RouteRule)
    → rule_for on tag ≡ some rule
    → In (tag, rule) on
rule_for-In [] tag rule h = cc
rule_for-In ((t, r) ∷ rest) tag rule h = elim (Bool-cases (same_tag t tag)) [
  | inl y ↦ let e : r ≡ rule = ground (arith, rw y at h) in inl (rw (same_tag-eq t tag y, e) refl)
  | inr x ↦ inr (rule_for-In rest tag rule (rw x at h))
]

module _ (t : TaskId) (db : Db) where
  chain-Target :
      (next : String)
      → (into_side_chain t db).0 ≡ ok (TaskAction.run_phase next)
      → next ≡ "propose_adjustment"
  unfolding into_side_chain enter_side_chain Task.adjustment_route_to_action
  chain-Target next h =
      elim (Result-cases (TaskRuntime.increment_iteration t IterationCounter.task_adjust db).0) [
        | inr (x, e) ↦ absurd (cc (rw e at h))
        | inl (n, e) ↦ elim (Bool-cases (ltb 3 (clamp_u32 n))) [
          | inr y ↦ ground (arith, rw (e, y) at h)
          | inl y ↦
              let later = (TaskRuntime.increment_iteration t IterationCounter.task_adjust db).1 in
              elim (Result-cases (latest_failure_detail t later).0) [
                | inl (d, r) ↦ absurd (cc (rw (e, y, r) at h))
                | inr (x, r) ↦ absurd (cc (rw (e, y, r) at h))
              ]
        ]
      ]

  reviewed-Target :
      (outcome : VerdictOutcome) (next : String)
      → (Task.route_reviewed t outcome db).0 ≡ ok (TaskAction.run_phase next)
      → (next ≡ "propose_adjustment") ⊎ (next ≡ "execute")
  unfolding Task.route_reviewed Adjustment.route_after_review_adjustment
      Task.adjustment_route_to_action into_side_chain
  reviewed-Target (VerdictOutcome.passing _) next h = inr (ground arith)
  reviewed-Target (VerdictOutcome.redo _) next h = inl (chain-Target next h)
  reviewed-Target (VerdictOutcome.fail _ _ _) next h = absurd (cc h)
  reviewed-Target (VerdictOutcome.blocked _ _) next h = absurd (cc h)
  reviewed-Target VerdictOutcome.canceled next h = absurd (cc h)

  loop-Target :
      (name : String) (v : WorkerVerdict) (next : String)
      → (Task.redo_loop t name v db).0 ≡ ok (TaskAction.run_phase next)
      → name ≡ next
  unfolding Task.redo_loop Task.repo_increment
  loop-Target name v next h = elim (Option-cases (counter_for name)) [
    | inl e ↦ absurd (cc (rw e at h))
    | inr (c, e) ↦ elim (Result-cases (TaskRuntime.increment_iteration t c db).0) [
      | inr (x, f) ↦ absurd (cc (rw (e, f) at h))
      | inl (n, f) ↦ elim (Bool-cases (ltb (cap_for c) (clamp_u32 n))) [
        | inl y ↦ absurd (cc (rw (e, f, y) at h))
        | inr x ↦ ground (arith, rw (e, f, x) at h)
      ]
    ]
  ]

module _ (t : TaskId) (p : PipelineDef) (phases : Phases) (valid : Valid p phases) (name : String)
    (db : Db) where
  routed-Known :
      (def : PhaseDef) (tag : VerdictTag) (next : String)
      → In (name, def) phases
      → route_next def tag ≡ some next
      → Known phases next
  unfolding route_next
  routed-Known def tag next i h = elim (Option-cases (rule_for def.on tag)) [
    | inl e ↦ absurd (cc (rw (route_next, e) at h))
    | inr (rule, e) ↦
        let k = valid.routes name def i tag rule (rule_for-In def.on tag rule e) in
        subst (KnownNext phases) (rw (route_next, e) at h) k
  ]

  fail-Target :
      (def : PhaseDef) (ewf : _) (o : Option String) (next : String)
      → ((n : String) → o ≡ some n → Known phases n)
      → (Task.fail_task t name def ewf o db).0 ≡ ok (TaskAction.run_phase next)
      → Target phases next
  unfolding Task.fail_task
  fail-Target def ewf (some n) next known h = elim (Bool-cases (n == "propose_adjustment")) [
    | inl y ↦ inr (inr (inl (chain-Target t db next (rw y at h))))
    | inr x ↦
        let e : n ≡ next = ground (arith, rw x at h) in inl (subst (Known phases) e (known n refl))
  ]
  fail-Target def ewf none next known h =
      elim (Bool-cases (Task.is_worker def.kind || is_side_chain_phase name)) [
        | inl y ↦ absurd (cc (rw y at h))
        | inr x ↦ absurd (cc (rw x at h))
      ]

  passing-Target :
      (def : PhaseDef) (next : String)
      → In (name, def) phases
      → Task.passing_action name def ≡ TaskAction.run_phase next
      → Target phases next
  passing-Target def next i h = elim (Bool-cases (name == merge_to_integration)) [
    | inl y ↦ absurd (cc (rw y at h))
    | inr x ↦ elim (Option-cases (route_next def VerdictTag.passing)) [
      | inl e ↦ inr (inl (sym (ground (arith, rw (x, e) at h))))
      | inr (n, e) ↦
          let same : n ≡ next = ground (arith, rw (x, e) at h) in
          inl (subst (Known phases) same (routed-Known def VerdictTag.passing n i e))
    ]
  ]

  outcome-Target :
      (outcome : VerdictOutcome) (v : WorkerVerdict) (def : PhaseDef) (next : String)
      → In (name, def) phases
      → (Task.route_task_outcome t name outcome v def db).0 ≡ ok (TaskAction.run_phase next)
      → Target phases next
  unfolding Task.route_task_outcome Task.redo_task
  outcome-Target (VerdictOutcome.passing _) v def next i h =
      passing-Target def next i (ground arith)
  outcome-Target (VerdictOutcome.redo _) v def next i h =
      elim (Bool-cases (is_side_chain_phase name)) [
        | inl y ↦ inr (inr (inl (chain-Target t db next (rw y at h))))
        | inr x ↦ inl (subst (Known phases) (loop-Target t db name v next (rw x at h)) (def, i))
      ]
  outcome-Target (VerdictOutcome.fail e w f) v def next i h =
      fail-Target def _ (route_next def VerdictTag.fail) next
        (λ n. routed-Known def VerdictTag.fail n i) h
  outcome-Target (VerdictOutcome.blocked _ _) v def next i h = absurd (cc h)
  outcome-Target VerdictOutcome.canceled v def next i h = absurd (cc h)

  -- Under a validated pipeline, a phase that `route_task` runs next, whatever the phase and the
  -- verdict, is known, or it is one of the three that the code names itself:
  -- `merge_to_integration`, `propose_adjustment` and `execute`.
  pub route_task-Target :
      (v : WorkerVerdict) (next : String)
      → (route_task name t v phases db).0 ≡ ok (TaskAction.run_phase next)
      → Target phases next
  unfolding route_task Task.route_known
  route_task-Target v next h = elim (Bool-cases (name == "review_adjustment")) [
    | inl y ↦ inr (inr (reviewed-Target t db v.outcome next (rw y at h)))
    | inr x ↦ elim (Option-cases (phase_named phases name)) [
      | inl e ↦ absurd (cc (rw (x, e) at h))
      | inr (def, e) ↦
          outcome-Target v.outcome v def next (phase_named-Known phases name def e) (rw (x, e) at h)
    ]
  ]
