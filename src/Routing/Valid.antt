-- ===== src/Routing/Valid.antt =====
-- src/service/routing.rs: `validate_pipeline` against a description of routing graphs.
use boi.Prelude.{
  String, [], ◌∷◌, true, Option, none, some, ok, ◌≡◌, inl, inr, refl, ap, sym, ◌↔◌, ◌==◌, eq_iff,
  In, ==-ne, Bool-cases, Option-cases, ◌>>◌, each, each-ok, then-ok,
}
use boi.Config.Phase.{PhaseDef, PhaseKind, VerdictTag, RouteRule, Phases, is_known, rule_for}
use boi.Config.Pipeline.{PipelinePhase, phase, tasks, PipelineDef}
use boi.Routing.Validate.{
  all_tags, validate_pipeline, check_spec_entry, check_task_entry, check_next, check_tag,
  check_tags, check_routes,
}

-- Some entry of the map has the name.
abbrev pub Known : Phases → String → Type 0
Known phases name = (def : PhaseDef) × In (name, def) phases

-- The next phase of a rule, if it has one, is known.
abbrev pub KnownNext : Phases → Option String → Type 0
KnownNext phases none = Unit
KnownNext phases (some next) = Known phases next

-- A well-formed routing graph.
pub record Valid (p : PipelineDef) (phases : Phases) : Type 0 where
  pub spec_known : (name : String) → In (phase name) p.spec_phases → Known phases name
  pub task_known : (name : String) → In name p.task_phases → Known phases name
  pub routes :
      (name : String) (def : PhaseDef)
      → In (name, def) phases
      → (tag : VerdictTag) (rule : RouteRule) → In (tag, rule) def.on
      → KnownNext phases rule.next
  pub covered :
      (name : String) (def : PhaseDef)
      → In (name, def) phases
      → def.kind ≡ PhaseKind.worker
      → (tag : VerdictTag) → (rule : RouteRule) × (rule_for def.on tag ≡ some rule)

is_known-Known :
    (phases : Phases) (name : String) → (is_known phases name ≡ true) ↔ Known phases name
is_known-Known [] name = (λ h. absurd (cc h), λ (def, i). elim i [ ])
is_known-Known ((n, def) ∷ rest) name = elim (Bool-cases (n == name)) [
  | inl y ↦ rw y (λ _. (def, inl (ap (λ x. (x, def)) (sym ((eq_iff n name).0 y)))), λ _. refl)
  | inr x ↦
      let r = is_known-Known rest name in
      rw x (
        λ h. let (d, i) = r.0 h in (d, inr i),
        λ (d, i). elim i [
          | inl e ↦ absurd (==-ne n name x (sym (ap (λ w. w.0) e)))
          | inr j ↦ r.1 (d, j)
        ],
      )
]

module _ (pipeline : String) (phases : Phases) where
  spec_entry-ok :
      (name : String) → (check_spec_entry pipeline phases (phase name) ≡ ok tt) ↔ Known phases name
  unfolding check_spec_entry
  spec_entry-ok name =
      let k = is_known-Known phases name in
      elim (Bool-cases (is_known phases name)) [
        | inl y ↦ rw y (λ _. k.0 y, λ _. refl)
        | inr n ↦ rw n (λ h. absurd (cc h), λ w. absurd (cc (n, k.1 w)))
      ]

  task_entry-ok :
      (name : String) → (check_task_entry pipeline phases name ≡ ok tt) ↔ Known phases name
  unfolding check_task_entry
  task_entry-ok name =
      let k = is_known-Known phases name in
      elim (Bool-cases (is_known phases name)) [
        | inl y ↦ rw y (λ _. k.0 y, λ _. refl)
        | inr n ↦ rw n (λ h. absurd (cc h), λ w. absurd (cc (n, k.1 w)))
      ]

  next-ok :
      (name : String) (tag : VerdictTag) (next : Option String)
      → (check_next pipeline phases name tag next ≡ ok tt) ↔ KnownNext phases next
  unfolding check_next
  next-ok name tag none = (λ _. tt, λ _. refl)
  next-ok name tag (some next) =
      let k = is_known-Known phases next in
      elim (Bool-cases (is_known phases next)) [
        | inl y ↦ rw y (λ _. k.0 y, λ _. refl)
        | inr n ↦ rw n (λ h. absurd (cc h), λ w. absurd (cc (n, k.1 w)))
      ]

  tag-ok :
      (name : String) (def : PhaseDef) (tag : VerdictTag)
      → (check_tag pipeline name def tag ≡ ok tt)
        ↔ ((rule : RouteRule) × (rule_for def.on tag ≡ some rule))
  unfolding check_tag
  tag-ok name def tag = elim (Option-cases (rule_for def.on tag)) [
    | inl n ↦ rw n (λ h. absurd (cc h), λ (rule, e). absurd (cc e))
    | inr (rule, e) ↦ rw e (λ _. (rule, refl), λ _. refl)
  ]

  all_tags-In : (tag : VerdictTag) → In tag all_tags
  all_tags-In VerdictTag.passing = inl refl
  all_tags-In VerdictTag.redo = inr (inl refl)
  all_tags-In VerdictTag.blocked = inr (inr (inl refl))
  all_tags-In VerdictTag.fail = inr (inr (inr (inl refl)))

  tags-ok :
      (name : String) (def : PhaseDef) (kind : PhaseKind)
      → (check_tags pipeline name def kind ≡ ok tt) ↔ (
          kind ≡ PhaseKind.worker
          → (tag : VerdictTag) → (rule : RouteRule) × (rule_for def.on tag ≡ some rule))
  unfolding check_tags
  tags-ok name def PhaseKind.deterministic = (λ _ k. absurd (cc k), λ _. refl)
  tags-ok name def PhaseKind.worker =
      let e = each-ok (check_tag pipeline name def) all_tags in
      (
        λ h _ tag. (tag-ok name def tag).0 (e.0 h tag (all_tags-In tag)),
        λ h. e.1 (λ tag i. (tag-ok name def tag).1 (h refl tag)),
      )

  routes-ok :
      (name : String) (def : PhaseDef)
      → (check_routes pipeline phases (name, def) ≡ ok tt) ↔ (
          ((tag : VerdictTag) (rule : RouteRule)
            → In (tag, rule) def.on
            → KnownNext phases rule.next)
          × (def.kind ≡ PhaseKind.worker
              → (tag : VerdictTag) → (rule : RouteRule) × (rule_for def.on tag ≡ some rule)))
  unfolding check_routes
  routes-ok name def =
      let t = then-ok _ (check_tags pipeline name def def.kind) in
      let e = each-ok (λ (tag, rule). check_next pipeline phases name tag rule.next) def.on in
      let k = tags-ok name def def.kind in
      (
        λ h. (
          λ tag rule i. (next-ok name tag rule.next).0 (e.0 (t.0 h).0 (tag, rule) i),
          k.0 (t.0 h).1,
        ),
        λ (h, c). t.1 (e.1 (λ (tag, rule) i. (next-ok name tag rule.next).1 (h tag rule i)), k.1 c),
      )

entries-ok :
    (p : PipelineDef) (phases : Phases)
    → Valid p phases
    → (x : PipelinePhase) → In x p.spec_phases
    → check_spec_entry p.name phases x ≡ ok tt
unfolding check_spec_entry
entries-ok p phases v tasks i = refl
entries-ok p phases v (phase name) i = (spec_entry-ok p.name phases name).1 (v.spec_known name i)

-- `validate_pipeline` accepts a pipeline exactly if its routing graph is well-formed: every phase
-- that it lists is known, every next phase that a rule of a known phase names is known, and every
-- known worker phase has a rule for each of the four verdict tags.
pub validate_pipeline-Valid :
    (p : PipelineDef) (phases : Phases) → (validate_pipeline p phases ≡ ok tt) ↔ Valid p phases
unfolding validate_pipeline
validate_pipeline-Valid p phases =
    let s = each-ok (check_spec_entry p.name phases) p.spec_phases in
    let t = each-ok (check_task_entry p.name phases) p.task_phases in
    let r = each-ok (check_routes p.name phases) phases in
    let a =
      then-ok
        (each (check_spec_entry p.name phases) p.spec_phases
          >> each (check_task_entry p.name phases) p.task_phases)
        (each (check_routes p.name phases) phases) in
    let b =
      then-ok (each (check_spec_entry p.name phases) p.spec_phases)
        (each (check_task_entry p.name phases) p.task_phases) in
    (
      λ h.
          let both = b.0 (a.0 h).0 in
          record {
            spec_known = λ name i. (spec_entry-ok p.name phases name).0 (s.0 both.0 (phase name) i);
            task_known = λ name i. (task_entry-ok p.name phases name).0 (t.0 both.1 name i);
            routes = λ name def i.
                ((routes-ok p.name phases name def).0 (r.0 (a.0 h).1 (name, def) i)).0;
            covered = λ name def i.
                ((routes-ok p.name phases name def).0 (r.0 (a.0 h).1 (name, def) i)).1;
          },
      λ v. a.1 (
        b.1 (
          s.1 (entries-ok p phases v),
          t.1 (λ name i. (task_entry-ok p.name phases name).1 (v.task_known name i)),
        ),
        r.1 (λ (name, def) i.
            (routes-ok p.name phases name def).1 (v.routes name def i, v.covered name def i)),
      ),
    )
