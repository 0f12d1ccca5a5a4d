-- ===== src/Cli/Dispatch/Builds.antt =====
-- src/cli/dispatch.rs: what `build_dispatch` builds from a spec whose refs are declared.
use boi.Prelude.{
  ℕ, suc, String, List, [], ◌∷◌, ◌++◌, true, Option, none, some, ok, ◌≡◌, ◌↔◌, inl, inr, refl, sym,
  ap, subst, ◌∙◌, arith, eq_iff, map, In, Bool-cases, Option-cases, In-append_left, In-append_right,
  In-of_In-append,
}
use boi.Types.Ids.{TaskId}
use boi.Config.Normalize.{TaskDef, Spec}
use boi.Repo.Dispatch.{DispatchDep}
use boi.Repo.Ids.{random_id}
use boi.Repo.Ids.Form.{InRange, random_id-valid}
use boi.Cli.Dispatch.{
  DispatchPlan, Minted, mint, has_ref, ref_to_id, resolve, edges_from, dispatch_task, plan_of,
  build_dispatch,
}

-- The tasks with the ids of the draws from the k-th on.
abbrev pub with_ids : (ℕ → ℕ → ℕ) → ℕ → List TaskDef → Minted
with_ids draws k [] = []
with_ids draws k (task ∷ tasks) = (random_id "T" (draws k), task) ∷ with_ids draws (suc k) tasks

mint-with_ids :
    (draws : ℕ → ℕ → ℕ)
    → ((k : ℕ) → InRange (draws k))
    → (k : ℕ) (tasks : List TaskDef) → mint draws k tasks ≡ ok (with_ids draws k tasks)
unfolding mint
mint-with_ids draws h k [] = refl
mint-with_ids draws h k (task ∷ tasks) =
    rw (random_id-valid "T" (draws k) (h k), mint-with_ids draws h (suc k) tasks)

has_ref-eq : (r : String) (o : Option String) → (has_ref r o ≡ true) ↔ (o ≡ some r)
has_ref-eq r none = (λ h. cc h, λ h. cc h)
has_ref-eq r (some s) = (λ h. ap some ((eq_iff s r).0 h), λ h. (eq_iff s r).1 (ground (arith, h)))

pub ref_to_id-In :
    (minted : Minted) (r : String) (d : TaskId)
    → ref_to_id minted r ≡ some d
    → (task : TaskDef) × In (d, task) minted × (task.task_ref ≡ some r)
unfolding ref_to_id
ref_to_id-In [] r d h = cc
ref_to_id-In ((id, task) ∷ minted) r d h = elim (Option-cases (ref_to_id minted r)) [
  | inr (x, e) ↦ let (t, i, p) = ref_to_id-In minted r d (e ∙ (rw e at h)) in (t, inr i, p)
  | inl e ↦ elim (Bool-cases (has_ref r task.task_ref)) [
    | inl y ↦
        let q : id ≡ d = ground (arith, rw (e, y) at h) in
        (task, inl (ap (λ z. (z, task)) (sym q)), (has_ref-eq r task.task_ref).0 y)
    | inr n ↦ absurd (cc (rw (e, n) at h))
  ]
]

pub In-ref_to_id :
    (minted : Minted) (r : String) (id : TaskId) (task : TaskDef)
    → In (id, task) minted
    → task.task_ref ≡ some r
    → (d : TaskId) × (ref_to_id minted r ≡ some d)
unfolding ref_to_id
In-ref_to_id [] r id task i e = elim i [ ]
In-ref_to_id ((x, t) ∷ minted) r id task (inl p) e =
    let own : t.task_ref ≡ some r = ap (λ (q : TaskId × TaskDef). (q.1).task_ref) (sym p) ∙ e in
    elim (Option-cases (ref_to_id minted r)) [
      | inl f ↦ (x, rw (f, (has_ref-eq r t.task_ref).1 own))
      | inr (d, f) ↦ (d, rw f)
    ]
In-ref_to_id ((x, t) ∷ minted) r id task (inr i) e =
    let (d, f) = In-ref_to_id minted r id task i e in (d, rw f)

abbrev pub edge : TaskId → TaskId → DispatchDep
edge t d = record { task_id = t; depends_on = d }

-- The ref is one of a task that has an id.
abbrev pub Known : Minted → String → Type 0
Known minted r = (d : TaskId) × (ref_to_id minted r ≡ some d)

same_ref :
    (minted : Minted) (x r : String) (c d : TaskId)
    → x ≡ r
    → ref_to_id minted x ≡ some c
    → ref_to_id minted r ≡ some d
    → c ≡ d
same_ref minted x r c d w b k =
    let e : some c ≡ some d = sym b ∙ ap (ref_to_id minted) w ∙ k in ground (arith, e)

resolve-Known :
    (minted : Minted) (idx : ℕ) (t : TaskId) (refs : List String)
    → ((r : String) → In r refs → Known minted r)
    → (edges : List DispatchDep) × (resolve minted idx t refs ≡ ok edges)
      × ((e : DispatchDep)
          → In e edges ↔ (
              (r : String) × In r refs
              × ((d : TaskId) × (ref_to_id minted r ≡ some d) × (e ≡ edge t d))))
unfolding resolve
resolve-Known minted idx t [] h = ([], refl, λ e. (λ i. elim i [ ], λ (r, i, _). elim i [ ]))
resolve-Known minted idx t (r ∷ refs) h =
    let (d, k) = h r (inl refl) in
    let (edges, p, exact) = resolve-Known minted idx t refs (λ x i. h x (inr i)) in
    (
      edge t d ∷ edges,
      rw (k, p),
      λ e. (
        λ i. elim i [
          | inl q ↦ (r, inl refl, (d, k, q))
          | inr j ↦ let (x, a, b) = (exact e).0 j in (x, inr a, b)
        ],
        λ (x, a, (c, b, q)). elim a [
          | inl w ↦ inl (q ∙ ap (edge t) (same_ref minted x r c d w b k))
          | inr j ↦ inr ((exact e).1 (x, j, (c, b, q)))
        ],
      ),
    )

-- The edge goes from the task to one whose ref it names.
abbrev pub Named : Minted → DispatchDep → TaskId × TaskDef → Type 0
Named minted e (t, task) =
    (r : String) × In r task.blocked_by
    × ((d : TaskId) × (ref_to_id minted r ≡ some d) × (e ≡ edge t d))

-- The edge goes from one of the tasks.
abbrev pub Names : Minted → Minted → DispatchDep → Type 0
Names minted tasks e =
    (t : TaskId) × (task : TaskDef) × In (t, task) tasks × Named minted e (t, task)

edges_from-Names :
    (minted : Minted) (idx : ℕ) (tasks : Minted)
    → ((t : TaskId) (task : TaskDef)
        → In (t, task) tasks
        → (r : String) → In r task.blocked_by
        → Known minted r)
    → (edges : List DispatchDep) × (edges_from minted idx tasks ≡ ok edges)
      × ((e : DispatchDep) → In e edges ↔ Names minted tasks e)
unfolding edges_from
edges_from-Names minted idx [] h = ([], refl, λ e. (λ i. elim i [ ], λ (t, task, i, _). elim i [ ]))
edges_from-Names minted idx ((t, task) ∷ tasks) h =
    let (own, p, exact) = resolve-Known minted idx t task.blocked_by (h t task (inl refl)) in
    let (rest, q, others) = edges_from-Names minted (suc idx) tasks (λ x y i. h x y (inr i)) in
    (
      own ++ rest,
      rw (p, q),
      λ e. (
        λ i. elim (In-of_In-append e own rest i) [
          | inl j ↦ (t, task, inl refl, (exact e).0 j)
          | inr j ↦ let (x, y, k, w) = (others e).0 j in (x, y, inr k, w)
        ],
        λ (x, y, k, w). elim k [
          | inl z ↦ In-append_left e own rest ((exact e).1 (subst (Named minted e) z w))
          | inr j ↦ In-append_right e own rest ((others e).1 (x, y, j, w))
        ],
      ),
    )

-- What the built rows are.
pub record IsPlan (draws : ℕ → ℕ → ℕ) (spec : Spec) (plan : DispatchPlan) : Type 0 where
  pub spec_id : plan.rows.spec_id ≡ random_id "S" (draws 0)
  pub tasks : plan.rows.tasks ≡ map dispatch_task (with_ids draws 1 spec.tasks)
  pub deps :
      (e : DispatchDep)
      → In e plan.rows.deps ↔ Names (with_ids draws 1 spec.tasks) (with_ids draws 1 spec.tasks) e

-- Every `blocked_by` names the ref of a task.
abbrev pub Declared : List TaskDef → Type 0
Declared tasks =
    (task : TaskDef)
    → In task tasks
    → (r : String) → In r task.blocked_by
    → (owner : TaskDef) × In owner tasks × (owner.task_ref ≡ some r)

module _ (draws : ℕ → ℕ → ℕ) where
  task_of_In :
      (k : ℕ) (tasks : List TaskDef) (t : TaskId) (task : TaskDef)
      → In (t, task) (with_ids draws k tasks)
      → In task tasks
  task_of_In k [] t task i = elim i [ ]
  task_of_In k (x ∷ tasks) t task (inl e) = inl (ap (λ (q : TaskId × TaskDef). q.1) e)
  task_of_In k (x ∷ tasks) t task (inr i) = inr (task_of_In (suc k) tasks t task i)

  pub In-with_ids :
      (k : ℕ) (tasks : List TaskDef) (task : TaskDef)
      → In task tasks
      → (t : TaskId) × In (t, task) (with_ids draws k tasks)
  In-with_ids k [] task i = elim i [ ]
  In-with_ids k (x ∷ tasks) task (inl e) =
      (random_id "T" (draws k), inl (ap (λ z. (random_id "T" (draws k), z)) e))
  In-with_ids k (x ∷ tasks) task (inr i) =
      let (t, j) = In-with_ids (suc k) tasks task i in (t, inr j)

  Declared-Known :
      (tasks : List TaskDef)
      → Declared tasks
      → (t : TaskId) (task : TaskDef) → In (t, task) (with_ids draws 1 tasks)
      → (r : String) → In r task.blocked_by
      → Known (with_ids draws 1 tasks) r
  Declared-Known tasks h t task i r j =
      let (owner, k, e) = h task (task_of_In 1 tasks t task i) r j in
      let (o, there) = In-with_ids 1 tasks owner k in
      In-ref_to_id (with_ids draws 1 tasks) r o owner there e

  -- For a generator whose numbers are indices of the alphabet, and a spec each of whose
  -- `blocked_by` names the ref of one of its tasks, `build_dispatch` succeeds. The spec and each
  -- task get an id of their own draw, the tasks keep their order and their refs, and the edges go
  -- exactly from the tasks to the tasks whose refs they name.
  pub build_dispatch-IsPlan :
      (spec : Spec)
      → ((k : ℕ) → InRange (draws k))
      → Declared spec.tasks
      → (plan : DispatchPlan) × (build_dispatch draws spec ≡ ok plan) × IsPlan draws spec plan
  unfolding build_dispatch
  build_dispatch-IsPlan spec h declared =
      let minted = with_ids draws 1 spec.tasks in
      let (edges, p, exact) =
        edges_from-Names minted 0 minted (Declared-Known spec.tasks declared) in
      (
        plan_of spec (random_id "S" (draws 0)) minted edges,
        rw (random_id-valid "S" (draws 0) (h 0), mint-with_ids draws h 1 spec.tasks, p),
        record { spec_id = refl; tasks = refl; deps = exact },
      )
