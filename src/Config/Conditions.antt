-- ===== src/Config/Conditions.antt =====
-- src/config/validate.rs: each single check against its condition.
use boi.Prelude.{
  String, List, [], ◌∷◌, false, not, Option, none, some, ok, ◌≡◌, ◌≢◌, ◌⊎◌, inl, inr, refl, sym, ap,
  subst, ◌↔◌, arith, ◌==◌, eq_iff, In, contains, In-contains, contains-In, Bool-cases, Option-cases,
  ==-ne, refuse_if, refuse_if-ok, each-ok, then-ok, In-append_left, In-append_right,
  In-of_In-append,
}
use boi.Config.Spec.{
  duplicate_ref, dangling_dep, missing_field, verification_mutex, RawVerification, RawTask,
}
use boi.Config.Checks
use boi.Config.Checks.{
  is_some, is_empty, is_blank, same, task_verifications, declared_refs, add_ref, task_label,
  check_verification, check_refs, check_blocked_by, check_task_fields, check_structure,
}

-- Exactly one of two options is given.
abbrev pub OneOf : {A B : Type 0} → Option A → Option B → Type 0
OneOf {A} {B} a b =
    (((x : A) × (a ≡ some x)) × (b ≡ none)) ⊎ ((a ≡ none) × ((y : B) × (b ≡ some y)))

-- No ref is declared twice.
abbrev pub Distinct : List String → Type 0
Distinct [] = Unit
Distinct (r ∷ rs) = (¬ In r rs) × Distinct rs

pub is_some-none : {A : Type 0} (o : Option A) → (is_some o ≡ false) ↔ (o ≡ none)
is_some-none none = (λ _. refl, λ _. refl)
is_some-none (some a) = (λ h. absurd (cc h), λ h. absurd (cc h))

pub is_empty-ne : {A : Type 0} (xs : List A) → (is_empty xs ≡ false) ↔ (xs ≢ [])
is_empty-ne [] = (λ h. absurd (cc h), λ h. absurd (h refl))
is_empty-ne (x ∷ xs) = (λ h e. cc e, λ _. refl)

pub same-OneOf :
    {A B : Type 0} (a : Option A) (b : Option B)
    → (same (is_some a) (is_some b) ≡ false) ↔ OneOf a b
same-OneOf none none =
    (λ h. absurd (cc h), elim [ inl ((x, e), f) ↦ absurd (cc e) | inr (e, (y, f)) ↦ absurd (cc f) ])
same-OneOf none (some b) = (λ _. inr (refl, (b, refl)), λ _. refl)
same-OneOf (some a) none = (λ _. inl ((a, refl), refl), λ _. refl)
same-OneOf (some a) (some b) =
    (λ h. absurd (cc h), elim [ inl ((x, e), f) ↦ absurd (cc f) | inr (e, (y, f)) ↦ absurd (cc e) ])

pub pipeline-ok :
    (o : Option String)
    → (Checks.check_pipeline_name o ≡ ok tt) ↔ ((o ≡ none) ⊎ (o ≡ some "standard"))
pipeline-ok none = (λ _. inl refl, λ _. refl)
pipeline-ok (some p) = elim (Bool-cases (p == "standard")) [
  | inl y ↦ rw y (λ _. inr (ap some ((eq_iff p "standard").0 y)), λ _. refl)
  | inr n ↦ rw n (
    λ h. absurd (cc h),
    elim [ inl e ↦ absurd (cc e) | inr e ↦ absurd (==-ne p "standard" n (ground arith)) ],
  )
]

not-contains : (xs : List String) (s : String) → ¬ In s xs → contains xs s ≡ false
not-contains xs s h = elim (Bool-cases (contains xs s)) [
  | inl y ↦ absurd (h (contains-In xs s y))
  | inr n ↦ n
]

add_ref-In :
    (r : String) (o : Option String) (rest : List String)
    → In r (add_ref o rest) ↔ ((o ≡ some r) ⊎ In r rest)
add_ref-In r none rest = (λ i. inr i, elim [ inl e ↦ absurd (cc e) | inr i ↦ i ])
add_ref-In r (some q) rest = (
  elim [ inl e ↦ inl (ap some (sym e)) | inr i ↦ inr i ],
  elim [ inl e ↦ inl (ground (arith, e)) | inr i ↦ inr i ],
)

-- The refs that are declared, as the tasks that declare them.
pub declared-In :
    (r : String) (tasks : List RawTask)
    → In r (declared_refs tasks) ↔ ((owner : RawTask) × In owner tasks × (owner.task_ref ≡ some r))
declared-In r [] = (λ i. elim i [ ], λ (o, i, _). elim i [ ])
declared-In r (task ∷ tasks) =
    let rest = declared-In r tasks in
    let a = add_ref-In r task.task_ref (declared_refs tasks) in
    (
      λ i. elim (a.0 i) [
        | inl e ↦ (task, inl refl, e)
        | inr j ↦ let (o, k, f) = rest.0 j in (o, inr k, f)
      ],
      λ (o, i, f). elim i [
        | inl p ↦ a.1 (inl (subst (λ (t : RawTask). t.task_ref ≡ some r) p f))
        | inr j ↦ a.1 (inr (rest.1 (o, j, f)))
      ],
    )

pub refs-ok :
    (seen : List String) (tasks : List RawTask)
    → (check_refs seen tasks ≡ ok tt)
      ↔ (Distinct (declared_refs tasks) × ((r : String) → In r seen → ¬ In r (declared_refs tasks)))
unfolding check_refs
refs-ok seen [] = (λ _. (tt, λ r i j. elim j [ ]), λ _. refl)
refs-ok seen (task ∷ tasks) = elim (Option-cases task.task_ref) [
  | inl e ↦ rw e (refs-ok seen tasks)
  | inr (q, e) ↦
      let rest = refs-ok (q ∷ seen) tasks in
      let t =
        then-ok (refuse_if (contains seen q) (duplicate_ref q)) (check_refs (q ∷ seen) tasks) in
      let f = refuse_if-ok (contains seen q) (duplicate_ref q) in
      rw e (
        λ h.
            let (d, apart) = rest.0 (t.0 h).1 in
            (
              (apart q (inl refl), d),
              λ r i j. elim j [
                | inl p ↦ cc (f.0 (t.0 h).0, In-contains seen q (subst (λ x. In x seen) p i))
                | inr k ↦ apart r (inr i) k
              ],
            ),
        λ ((fresh, d), apart). t.1 (
          f.1 (not-contains seen q (λ i. apart q i (inl refl))),
          rest.1 (
            d,
            λ r i k. elim i [
              | inl p ↦ fresh (subst (λ x. In x (declared_refs tasks)) p k)
              | inr j ↦ apart r j (inr k)
            ],
          ),
        ),
      )
]

module _ (declared : List RawTask) where
  dep-ok :
      (task : RawTask) (dep : String)
      → (refuse_if
            (not (contains (declared_refs declared) dep))
            (dangling_dep (task_label task) dep)
          ≡ ok tt)
        ↔ ((owner : RawTask) × In owner declared × (owner.task_ref ≡ some dep))
  dep-ok task dep =
      let d = declared-In dep declared in
      elim (Bool-cases (contains (declared_refs declared) dep)) [
        | inl y ↦ rw y (λ _. d.0 (contains-In (declared_refs declared) dep y), λ _. refl)
        | inr n ↦ rw n (
          λ h. absurd (cc h),
          λ w. absurd (cc (n, In-contains (declared_refs declared) dep (d.1 w))),
        )
      ]

  pub blocked_by-ok :
      (task : RawTask)
      → (check_blocked_by (declared_refs declared) task ≡ ok tt) ↔ (
          (dep : String)
          → In dep task.blocked_by
          → (owner : RawTask) × In owner declared × (owner.task_ref ≡ some dep))
  unfolding check_blocked_by
  blocked_by-ok task =
      let e =
        each-ok
          (λ dep.
            refuse_if (not (contains (declared_refs declared) dep))
              (dangling_dep (task_label task) dep))
          task.blocked_by in
      (
        λ h dep i. (dep-ok task dep).0 (e.0 h dep i),
        λ h. e.1 (λ dep i. (dep-ok task dep).1 (h dep i)),
      )

pub fields-ok :
    (task : RawTask)
    → (check_task_fields task ≡ ok tt)
      ↔ ((is_blank task.behavior ≡ false) × (task.verifications ≢ []))
unfolding check_task_fields
fields-ok task =
    let t =
      then-ok (refuse_if (is_blank task.behavior) (missing_field "task.behavior"))
        (refuse_if (is_empty task.verifications) (missing_field "task.verifications")) in
    let a = refuse_if-ok (is_blank task.behavior) (missing_field "task.behavior") in
    let b = refuse_if-ok (is_empty task.verifications) (missing_field "task.verifications") in
    let e = is_empty-ne task.verifications in
    (λ h. (a.0 (t.0 h).0, e.0 (b.0 (t.0 h).1)), λ (h, k). t.1 (a.1 h, b.1 (e.1 k)))

pub verification-ok :
    (v : RawVerification) → (check_verification v ≡ ok tt) ↔ OneOf v.intent v.command
unfolding check_verification
verification-ok v =
    let f =
      refuse_if-ok (same (is_some v.intent) (is_some v.command))
        (verification_mutex (Checks.verification_label v)) in
    let s = same-OneOf v.intent v.command in (λ h. s.0 (f.0 h), λ h. f.1 (s.1 h))

pub task_verifications-In :
    (v : RawVerification) (tasks : List RawTask)
    → In v (task_verifications tasks) ↔ ((task : RawTask) × In task tasks × In v task.verifications)
task_verifications-In v [] = (λ i. elim i [ ], λ (t, i, _). elim i [ ])
task_verifications-In v (task ∷ tasks) =
    let rest = task_verifications-In v tasks in
    (
      λ i. elim (In-of_In-append v task.verifications (task_verifications tasks) i) [
        | inl j ↦ (task, inl refl, j)
        | inr j ↦ let (t, k, l) = rest.0 j in (t, inr k, l)
      ],
      λ (t, i, j). elim i [
        | inl p ↦
            In-append_left v task.verifications (task_verifications tasks)
              (subst (λ (x : RawTask). In v x.verifications) p j)
        | inr k ↦ In-append_right v task.verifications (task_verifications tasks) (rest.1 (t, k, j))
      ],
    )
