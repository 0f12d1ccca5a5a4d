-- ===== src/Config/WellFormed.antt =====
-- src/config/validate.rs: the structural checks against a description of specs.
use boi.Prelude.{
  String, List, [], ◌++◌, false, Option, none, some, ok, ◌≡◌, ◌≢◌, ◌⊎◌, inl, inr, ◌↔◌, In, Check,
  refuse_if, refuse_if-ok, each, each-ok, then-ok, ◌>>◌, In-append_left, In-append_right,
  In-of_In-append,
}
use boi.Config.Spec.{ConfigError, workspace_xor, RawVerification, RawTask, RawSpec}
use boi.Config.Checks
use boi.Config.Checks.{
  is_some, is_empty, is_blank, same, task_verifications, declared_refs, add_ref, task_label,
  check_verification, check_refs, check_blocked_by, check_task_fields, check_structure,
}
use boi.Config.Conditions.{
  OneOf, Distinct, is_some-none, is_empty-ne, same-OneOf, pipeline-ok, refs-ok, fields-ok,
  verification-ok, task_verifications-In, blocked_by-ok,
}

pub record WellFormed {Toml : Type 0} (raw : RawSpec Toml) : Type 0 where
  pub current :
      (raw.mode ≡ none)
      × (raw.max_iterations ≡ none)
      × (raw.clean_state ≡ none)
      × (raw.initiative ≡ none)
  pub named :
      (is_blank raw.title ≡ false)
      × (is_blank raw.contract.scope ≡ false)
      × (is_blank raw.contract.base_branch ≡ false)
  pub has_tasks : raw.tasks ≢ []
  pub tasks_filled :
      (task : RawTask)
      → In task raw.tasks
      → (is_blank task.behavior ≡ false) × (task.verifications ≢ [])
  pub standard : (raw.pipeline ≡ none) ⊎ (raw.pipeline ≡ some "standard")
  pub workspace : OneOf raw.contract.workspace raw.contract.workspace_rationale
  pub contract_verifications :
      (v : RawVerification) → In v raw.contract.verifications → OneOf v.intent v.command
  pub task_verifications :
      (task : RawTask)
      → In task raw.tasks
      → (v : RawVerification) → In v task.verifications
      → OneOf v.intent v.command
  pub refs : Distinct (declared_refs raw.tasks)
  pub deps :
      (task : RawTask)
      → In task raw.tasks
      → (dep : String) → In dep task.blocked_by
      → (owner : RawTask) × In owner raw.tasks × (owner.task_ref ≡ some dep)

-- Two conditions of a chain, each with what it means.
both :
    {P Q : Type 0} {a b : Check ConfigError}
    → (a ≡ ok tt) ↔ P
    → (b ≡ ok tt) ↔ Q
    → (a >> b ≡ ok tt) ↔ (P × Q)
both {a} {b} p q =
    let t = then-ok a b in (λ h. (p.0 (t.0 h).0, q.0 (t.0 h).1), λ (x, y). t.1 (p.1 x, q.1 y))

absent :
    {A : Type 0} (o : Option A) (e : ConfigError) → (refuse_if (is_some o) e ≡ ok tt) ↔ (o ≡ none)
absent o e =
    let f = refuse_if-ok (is_some o) e in
    let n = is_some-none o in (λ h. n.0 (f.0 h), λ h. f.1 (n.1 h))

filled :
    {A : Type 0} (xs : List A) (e : ConfigError) → (refuse_if (is_empty xs) e ≡ ok tt) ↔ (xs ≢ [])
filled xs e =
    let f = refuse_if-ok (is_empty xs) e in
    let n = is_empty-ne xs in (λ h. n.0 (f.0 h), λ h. f.1 (n.1 h))

each_iff :
    {A : Type 0} {P : A → Type 0} (check : A → Check ConfigError) (xs : List A)
    → ((x : A) → (check x ≡ ok tt) ↔ P x)
    → (each check xs ≡ ok tt) ↔ ((x : A) → In x xs → P x)
each_iff check xs h =
    let e = each-ok check xs in (λ k x i. (h x).0 (e.0 k x i), λ k. e.1 (λ x i. (h x).1 (k x i)))

module _ {Toml : Type 0} (raw : RawSpec Toml) where
  removed-ok : (Checks.reject_removed_fields raw ≡ ok tt) ↔ (
      (((raw.mode ≡ none) × (raw.max_iterations ≡ none)) × (raw.clean_state ≡ none))
      × (raw.initiative ≡ none))
  unfolding Checks.reject_removed_fields
  removed-ok =
      both
        (both (both (absent raw.mode _) (absent raw.max_iterations _)) (absent raw.clean_state _))
        (absent raw.initiative _)

  required-ok : (Checks.check_required_fields raw ≡ ok tt) ↔ (
      ((((is_blank raw.title ≡ false) × (is_blank raw.contract.scope ≡ false))
          × (is_blank raw.contract.base_branch ≡ false))
        × (raw.tasks ≢ []))
      × ((task : RawTask)
          → In task raw.tasks
          → (is_blank task.behavior ≡ false) × (task.verifications ≢ [])))
  unfolding Checks.check_required_fields
  required-ok =
      both
        (both (both (both (refuse_if-ok _ _) (refuse_if-ok _ _)) (refuse_if-ok _ _))
          (filled raw.tasks _))
        (each_iff check_task_fields raw.tasks fields-ok)

  workspace-ok :
      (Checks.check_workspace_xor raw ≡ ok tt)
      ↔ OneOf raw.contract.workspace raw.contract.workspace_rationale
  unfolding Checks.check_workspace_xor
  workspace-ok =
      let f =
        refuse_if-ok
          (same (is_some raw.contract.workspace) (is_some raw.contract.workspace_rationale))
          workspace_xor in
      let s = same-OneOf raw.contract.workspace raw.contract.workspace_rationale in
      (λ h. s.0 (f.0 h), λ h. f.1 (s.1 h))

  verifications-ok : (Checks.check_verifications raw ≡ ok tt) ↔ (
      (v : RawVerification)
      → In v (raw.contract.verifications ++ task_verifications raw.tasks)
      → OneOf v.intent v.command)
  unfolding Checks.check_verifications
  verifications-ok = each_iff check_verification _ verification-ok

  unique-ok : (Checks.check_ref_uniqueness raw ≡ ok tt) ↔ Distinct (declared_refs raw.tasks)
  unfolding Checks.check_ref_uniqueness
  unique-ok = let r = refs-ok [] raw.tasks in (λ h. (r.0 h).0, λ d. r.1 (d, λ x i. elim i [ ]))

  name-ok :
      (Checks.check_pipeline raw ≡ ok tt)
      ↔ ((raw.pipeline ≡ none) ⊎ (raw.pipeline ≡ some "standard"))
  unfolding Checks.check_pipeline
  name-ok = pipeline-ok raw.pipeline

  deps-ok : (Checks.check_dangling_deps raw ≡ ok tt) ↔ (
      (task : RawTask)
      → In task raw.tasks
      → (dep : String) → In dep task.blocked_by
      → (owner : RawTask) × In owner raw.tasks × (owner.task_ref ≡ some dep))
  unfolding Checks.check_dangling_deps
  deps-ok =
      each_iff (check_blocked_by (declared_refs raw.tasks)) raw.tasks (blocked_by-ok raw.tasks)

  -- The structural checks accept a raw spec exactly if it has no removed field, its title, scope
  -- and base branch are not blank, it has tasks, each with a behavior that is not blank and with
  -- verifications, its pipeline is absent or `standard`, exactly one of the workspace and its
  -- rationale is given, every verification has exactly one of intent and command, no ref is
  -- declared twice, and every `blocked_by` names a declared ref.
  pub check_structure-WellFormed : (check_structure raw ≡ ok tt) ↔ WellFormed raw
  unfolding check_structure
  check_structure-WellFormed =
      let all =
        both
          (both
            (both (both (both (both removed-ok required-ok) name-ok) workspace-ok) verifications-ok)
            unique-ok)
          deps-ok in
      (
        λ h.
            let (((((((((m, x), c), i), ((((t, s), b), n), f)), p), w), v), r), d) = all.0 h in
            record {
              current = (m, x, c, i);
              named = (t, s, b);
              has_tasks = n;
              tasks_filled = f;
              standard = p;
              workspace = w;
              contract_verifications = λ u j. v u (In-append_left u raw.contract.verifications _ j);
              task_verifications = λ task j u k. v u (
                  In-append_right u raw.contract.verifications _
                    ((task_verifications-In u raw.tasks).1 (task, j, k)));
              refs = r;
              deps = d;
            },
        λ w.
            let (m, x, c, i) = w.current in
            let (t, s, b) = w.named in
            all.1 (
              (
                (
                  (
                    (((((m, x), c), i), ((((t, s), b), w.has_tasks), w.tasks_filled)), w.standard),
                    w.workspace,
                  ),
                  λ u j. elim (In-of_In-append u raw.contract.verifications _ j) [
                    | inl k ↦ w.contract_verifications u k
                    | inr k ↦
                        let (task, l, n) = (task_verifications-In u raw.tasks).0 k in
                        w.task_verifications task l u n
                  ],
                ),
                w.refs,
              ),
              w.deps,
            ),
      )
