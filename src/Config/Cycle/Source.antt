-- ===== src/Config/Cycle/Source.antt =====
-- src/config/validate.rs: in an accepted spec, some task waits for none.
use boi.Prelude.{
  String, List, [], ◌∷◌, some, ◌≡◌, inl, inr, refl, sym, ap, subst, ◌∙◌, In, ◌==◌, Bool-cases,
  Option-cases, ==-ne, ◌⊎◌, arith,
}
use boi.Config.Spec.{RawTask, RawSpec}
use boi.Config.WellFormed.{WellFormed}
use boi.Config.Cycle.{children, graph_of}
use boi.Config.Cycle.Invariant.{Finite, finite, Acyclic}
use boi.Config.Cycle.Decides.{Acyclic-Finite}

-- The task whose edges the graph has under a ref.
owner_children :
    (tasks : List RawTask) (r : String) (owner : RawTask)
    → In owner tasks
    → owner.task_ref ≡ some r
    → (task : RawTask) × In task tasks × (children (graph_of tasks) r ≡ task.blocked_by)
unfolding children
owner_children [] r owner i e = elim i [ ]
owner_children (x ∷ tasks) r owner i e = elim (Option-cases x.task_ref) [
  | inl p ↦ elim i [
    | inl q ↦ absurd (cc (ap (λ (t : RawTask). t.task_ref) q, e, p))
    | inr j ↦ let (t, k, f) = owner_children tasks r owner j e in (t, inr k, rw p f)
  ]
  | inr (s, p) ↦ elim (Bool-cases (s == r)) [
    | inl y ↦ (x, inl refl, rw (p, y))
    | inr n ↦ elim i [
      | inl q ↦
          let w : some s ≡ some r = sym p ∙ ap (λ (t : RawTask). t.task_ref) (sym q) ∙ e in
          absurd (==-ne s r n (ground (arith, w)))
      | inr j ↦ let (t, k, f) = owner_children tasks r owner j e in (t, inr k, rw (p, n) f)
    ]
  ]
]

-- Each `blocked_by` names the ref of a task.
abbrev Named : List RawTask → Type 0
Named tasks =
    (task : RawTask)
    → In task tasks
    → (dep : String) → In dep task.blocked_by
    → (owner : RawTask) × In owner tasks × (owner.task_ref ≡ some dep)

empty_or_first : {A : Type 0} (xs : List A) → (xs ≡ []) ⊎ ((x : A) × In x xs)
empty_or_first [] = inl refl
empty_or_first (x ∷ xs) = inr (x, inl refl)

module _ (tasks : List RawTask) (named : Named tasks) where
  abbrev Source : Type 0
  Source = (task : RawTask) × In task tasks × (task.blocked_by ≡ [])

  -- Along the first dependency of each task until one has none.
  descend :
      (r : String)
      → Finite (graph_of tasks) r
      → (owner : RawTask) → In owner tasks
      → owner.task_ref ≡ some r
      → Source
  descend r (finite _ f) owner i e =
      let (task, k, same) = owner_children tasks r owner i e in
      elim (empty_or_first task.blocked_by) [
        | inl none_left ↦ (task, k, none_left)
        | inr (dep, there) ↦
            let (next, j, p) = named task k dep there in
            descend dep (f dep (subst (In dep) (sym same) there)) next j p
      ]

  from_task : Acyclic (graph_of tasks) → (task : RawTask) → In task tasks → Source
  from_task acyclic task i = elim (empty_or_first task.blocked_by) [
    | inl none_left ↦ (task, i, none_left)
    | inr (dep, there) ↦
        let (owner, j, p) = named task i dep there in
        descend dep (Acyclic-Finite (graph_of tasks) acyclic dep) owner j p
  ]

-- A well-formed spec without a cycle has a task that waits for no other.
pub WellFormed-Source :
    {Toml : Type 0} (raw : RawSpec Toml)
    → WellFormed raw
    → Acyclic (graph_of raw.tasks)
    → (task : RawTask) × In task raw.tasks × (task.blocked_by ≡ [])
WellFormed-Source raw wf acyclic = elim (empty_or_first raw.tasks) [
  | inl e ↦ absurd (wf.has_tasks e)
  | inr (task, i) ↦ from_task raw.tasks wf.deps acyclic task i
]
