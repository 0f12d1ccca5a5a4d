-- ===== src/Bus/Cascade.antt =====
-- src/service/bus.rs: the cascade over the tasks of a spec that has failed or is canceled.
use boi.Prelude.{
  ℕ, List, [], ◌∷◌, true, false, Option, none, some, ok, ◌≡◌, ◌≢◌, inl, inr, refl, sym, ap, ◌∙◌,
  arith, In, eq_iff, Bool-cases, Result-cases, String, In-filter, In-order_by,
}
use boi.Types.Ids.{SpecId, TaskId, new_with}
use boi.Types.Reasons.{CancellationReason, spec_canceled as spec_was_canceled}
use boi.Types.TaskState
use boi.Types.TaskState.{TaskState, from_str-as_str, as_str_of_from_str}
use boi.Types.SpecStatus.{SpecStatus}
use boi.Types.Event.{BoiEvent, spec_failed, spec_canceled}
use boi.Repo.Db.{Db, TerminalReason, cancellation, TaskRuntimeRow}
use boi.Repo.TaskRuntime
use boi.Repo.TaskRuntime.{write_row, set_state}
use boi.Repo.TaskRuntime.Rows.{In-of_In-write_row}
use boi.Repo.SpecRuntime
use boi.Transitions.{check_spec}
use boi.Bus.{
  EventBus, parse_task_state, parse_spec_status, parse_stored_id, transition_task, cancel_active,
  cancel_stranded_active_tasks, transition_spec, persist, emit, is_active, cascades,
}
use boi.Bus.Lifecycle.{refused, written, transition_task-Outcome}

-- Every active row of the spec is among those that the loop still has before it.
abbrev Covered : SpecId → List TaskRuntimeRow → Db → Type 0
Covered s rows db =
    (r : TaskRuntimeRow)
    → In r db.task_runtime
    → r.spec_id ≡ s
    → r.state ≡ TaskState.as_str TaskState.active
    → In r rows

abbrev pub NoneActive : SpecId → Db → Type 0
NoneActive s db =
    (r : TaskRuntimeRow)
    → In r db.task_runtime
    → r.spec_id ≡ s
    → r.state ≢ TaskState.as_str TaskState.active

stored_id : (s : String) (t : TaskId) → parse_stored_id s ≡ ok t → t ≡ s
unfolding parse_stored_id new_with
stored_id s t h = ground arith

module _ (s : SpecId) (now : ℕ) where
  -- A canceled row is not active, and the others stand in the rest of the list.
  Covered-after_cancel :
      (row : TaskRuntimeRow) (rows : List TaskRuntimeRow) (t : TaskId) (db : Db)
      (c : Option CancellationReason)
      → t ≡ row.task_id
      → Covered s (row ∷ rows) db
      → Covered s rows (record db {
        task_runtime = write_row t (set_state TaskState.canceled c none now) db.task_runtime;
      })
  unfolding set_state
  Covered-after_cancel row rows t db c e h r m q a =
      let (old, old_in, how) =
        In-of_In-write_row t (set_state TaskState.canceled c none now) r db.task_runtime m in
      elim how [
        | inl (p, k) ↦ cc (
          from_str-as_str TaskState.canceled,
          from_str-as_str TaskState.active,
          ap (λ (w : TaskRuntimeRow). w.state) k,
          a,
        )
        | inr (n, k) ↦ elim (h old old_in (rw (← k) q) (rw (← k) a)) [
          | inl x ↦ absurd (n (ap (λ (w : TaskRuntimeRow). w.task_id) x ∙ sym e))
          | inr x ↦ rw k x
        ]
      ]

  passed_over :
      (row : TaskRuntimeRow) (rows : List TaskRuntimeRow) (db : Db) (state : TaskState)
      → parse_task_state row.state ≡ ok state
      → is_active state ≡ false
      → Covered s (row ∷ rows) db
      → Covered s rows db
  unfolding parse_task_state
  passed_over row rows db state p i h r m q a = elim (h r m q a) [
    | inl x ↦
        let at : row.state ≡ TaskState.as_str TaskState.active =
          ap (λ (w : TaskRuntimeRow). w.state) (sym x) ∙ a in
        ground (arith, at, from_str-as_str TaskState.active)
    | inr x ↦ x
  ]

  cancel_active-NoneActive :
      (rows : List TaskRuntimeRow) (db : Db)
      → Covered s rows db
      → (cancel_active now rows db).0 ≡ ok tt
      → NoneActive s (cancel_active now rows db).1
  unfolding cancel_active
  cancel_active-NoneActive [] db h = λ e r m q a. h r m q a
  cancel_active-NoneActive (row ∷ rows) db h = elim (Result-cases (parse_task_state row.state)) [
    | inr (x, p) ↦ rw p (λ e. cc)
    | inl (state, p) ↦ elim (Bool-cases (is_active state)) [
      | inr i ↦ rw (p, i) (cancel_active-NoneActive rows db (passed_over row rows db state p i h))
      | inl i ↦ elim (Result-cases (parse_stored_id row.task_id)) [
        | inr (x, q) ↦ rw (p, i, q) (λ e. cc)
        | inl (t, q) ↦
            elim (transition_task-Outcome t TaskState.canceled
              (some (cancellation spec_was_canceled)) none now db) [
                | refused same fails ↦
                    elim (Result-cases
                      (transition_task t TaskState.canceled (some (cancellation spec_was_canceled))
                        none now db).0) [
                          | inl (u, y) ↦ absurd (fails y)
                          | inr (x, y) ↦ rw (p, i, q, y) (λ e. cc)
                        ]
                | written found from c _ _ _ _ e ↦
                    rw (p, i, q, e)
                      (cancel_active-NoneActive rows _
                        (Covered-after_cancel row rows t db c (stored_id row.task_id t q) h))
              ]
      ]
    ]
  ]

cascade-NoneActive :
    (s : SpecId) (now : ℕ) (db : Db)
    → (cancel_stranded_active_tasks s now db).0 ≡ ok tt
    → NoneActive s (cancel_stranded_active_tasks s now db).1
unfolding cancel_stranded_active_tasks TaskRuntime.tasks_for_spec
cascade-NoneActive s now db =
    cancel_active-NoneActive s now _ db
      λ r m q a. In-order_by _ r _ (In-filter _ r db.task_runtime m ((eq_iff r.spec_id s).1 q))

-- A transition of a spec that succeeds and cascades ends in the cascade.
module _ (s : SpecId) (to : SpecStatus) (reason : Option TerminalReason) (now : ℕ) (db : Db)
    (falls : cascades to ≡ true) where
  transition_spec-NoneActive :
      (transition_spec s to reason now db).0 ≡ ok tt
      → NoneActive s (transition_spec s to reason now db).1
  unfolding transition_spec
  transition_spec-NoneActive = elim (Result-cases (SpecRuntime.fetch s db).0) [
    | inr (x, f) ↦ rw f (λ e. cc)
    | inl (row, f) ↦ elim (Result-cases (parse_spec_status row.status)) [
      | inr (x, p) ↦ rw (f, p) (λ e. cc)
      | inl (from, p) ↦ elim (Result-cases (check_spec s from to)) [
        | inr (x, l) ↦ rw (f, p, l) (λ e. cc)
        | inl (u, l) ↦
            elim (Result-cases
              (SpecRuntime.update_status s to reason now (SpecRuntime.fetch s db).1).0) [
                | inr (x, w) ↦ rw (f, p, l, w) (λ e. cc)
                | inl (v, w) ↦ rw (f, p, l, w, falls) (cascade-NoneActive s now _)
              ]
      ]
    ]
  ]

-- The events that end a spec without completing it.
abbrev pub Ends : {Json : Type 0} → SpecId → BoiEvent Json → Type 0
Ends s (spec_failed t _) = t ≡ s
Ends s (spec_canceled t _) = t ≡ s
Ends _ _ = ⊥

module _ {Json : Type 0} (bus : EventBus Json) (s : SpecId) (now : ℕ) (db : Db) where
  emitted : (e : BoiEvent Json) → (emit bus e now db).1 ≡ (persist e now db).1
  unfolding emit
  emitted e = elim (Result-cases (persist e now db).0) [
    | inl (u, p) ↦ rw p refl
    | inr (x, p) ↦ rw p refl
  ]

  accepted : (e : BoiEvent Json) → (emit bus e now db).0 ≡ ok tt → (persist e now db).0 ≡ ok tt
  unfolding emit
  accepted e = elim (Result-cases (persist e now db).0) [
    | inl (u, p) ↦ λ _. p
    | inr (x, p) ↦ rw p (λ q. cc)
  ]

  persisted-NoneActive :
      (e : BoiEvent Json)
      → Ends s e
      → (persist e now db).0 ≡ ok tt
      → NoneActive s (persist e now db).1
  unfolding persist
  persisted-NoneActive (spec_failed t reason) ends =
      rw ends (transition_spec-NoneActive s SpecStatus.failed _ now db refl)
  persisted-NoneActive (spec_canceled t reason) ends =
      rw ends (transition_spec-NoneActive s SpecStatus.canceled _ now db refl)
  persisted-NoneActive _ ends = absurd ends

  -- When the bus accepts that a spec failed, or that it is canceled, no task of the spec is active
  -- in the table that this leaves.
  pub ended_spec-NoneActive :
      (e : BoiEvent Json)
      → Ends s e
      → (emit bus e now db).0 ≡ ok tt
      → NoneActive s (emit bus e now db).1
  ended_spec-NoneActive e ends h = rw (emitted e) (persisted-NoneActive e ends (accepted e h))
