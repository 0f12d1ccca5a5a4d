-- ===== src/Scheduler/Settled.antt =====
-- src/service/scheduler.rs: `all_tasks_settled` and `any_task_passing` against the rows.
use boi.Prelude.{
  List, [], ◌∷◌, Bool, true, false, some, ok, ◌≡◌, ◌⊎◌, inl, inr, refl, ap, ◌↔◌, arith, In,
  Bool-cases,
}
use boi.Types.Ids.{SpecId}
use boi.Types.TaskState
use boi.Types.TaskState.{TaskState, from_str-as_str}
use boi.Repo.Db.{Db, TaskRuntimeRow}
use boi.Repo.TaskRuntime
use boi.Scheduler.{all_tasks_settled, any_task_passing}
use boi.Scheduler.States.{settled, some_passing, parse_state, is_terminal, is_passing}
use boi.Scheduler.StateMap.{Readable}
use boi.Scheduler.Ready.{StoreOk, spec_rows, spec_rows-In, In-spec_rows, spec_rows-Readable}

-- A row whose text is that of a terminal state.
abbrev pub RowSettled : TaskRuntimeRow → Type 0
RowSettled r =
    (r.state ≡ TaskState.as_str TaskState.passing) ⊎ (r.state ≡ TaskState.as_str TaskState.canceled)

RowSettled-iff :
    (r : TaskRuntimeRow) (state : TaskState)
    → r.state ≡ TaskState.as_str state
    → (is_terminal state ≡ true) ↔ RowSettled r
RowSettled-iff r TaskState.not_started e = (
  λ h. cc,
  elim [
    | inl p ↦ cc (from_str-as_str TaskState.not_started, from_str-as_str TaskState.passing)
    | inr p ↦ cc (from_str-as_str TaskState.not_started, from_str-as_str TaskState.canceled)
  ],
)
RowSettled-iff r TaskState.active e = (
  λ h. cc,
  elim [
    | inl p ↦ cc (from_str-as_str TaskState.active, from_str-as_str TaskState.passing)
    | inr p ↦ cc (from_str-as_str TaskState.active, from_str-as_str TaskState.canceled)
  ],
)
RowSettled-iff r TaskState.blocked e = (
  λ h. cc,
  elim [
    | inl p ↦ cc (from_str-as_str TaskState.blocked, from_str-as_str TaskState.passing)
    | inr p ↦ cc (from_str-as_str TaskState.blocked, from_str-as_str TaskState.canceled)
  ],
)
RowSettled-iff r TaskState.passing e = (λ h. inl e, λ h. refl)
RowSettled-iff r TaskState.canceled e = (λ h. inr e, λ h. refl)

parsed :
    (r : TaskRuntimeRow) (state : TaskState)
    → r.state ≡ TaskState.as_str state
    → parse_state r.task_id r.state ≡ ok state
unfolding parse_state
parsed r state e = rw (e, from_str-as_str state)

settled_decides :
    (rows : List TaskRuntimeRow)
    → Readable rows
    → (b : Bool) × (settled rows ≡ ok b)
      × ((b ≡ true) ↔ ((r : TaskRuntimeRow) → In r rows → RowSettled r))
unfolding settled
settled_decides [] h = (true, refl, (λ _ r i. elim i [ ], λ _. refl))
settled_decides (row ∷ rows) h =
    let (state, e) = h row (inl refl) in
    elim (Bool-cases (is_terminal state)) [
      | inl t ↦
          let (b, p, q) = settled_decides rows (λ r i. h r (inr i)) in
          (
            b,
            rw (parsed row state e, t) p,
            (
              λ y r. elim [ inl i ↦ rw i ((RowSettled-iff row state e).0 t) | inr i ↦ q.0 y r i ],
              λ y. q.1 (λ r i. y r (inr i)),
            ),
          )
      | inr f ↦ (
        false,
        rw (parsed row state e, f),
        (λ y. cc, λ y. cc (f, (RowSettled-iff row state e).1 (y row (inl refl)))),
      )
    ]

some_passing_decides :
    (rows : List TaskRuntimeRow)
    → Readable rows
    → (b : Bool) × (some_passing rows ≡ ok b)
      × ((b ≡ true)
          ↔ ((r : TaskRuntimeRow) × In r rows × (r.state ≡ TaskState.as_str TaskState.passing)))
unfolding some_passing
some_passing_decides [] h = (false, refl, (λ y. cc, λ (r, i, _). elim i [ ]))
some_passing_decides (row ∷ rows) h =
    let (state, e) = h row (inl refl) in
    elim (Bool-cases (is_passing (some state))) [
      | inl t ↦
          let at : state ≡ TaskState.passing = ground arith in
          (true, rw (parsed row state e, t), (λ y. (row, inl refl, rw (← at) e), λ y. refl))
      | inr f ↦
          let (b, p, q) = some_passing_decides rows (λ r i. h r (inr i)) in
          (
            b,
            rw (parsed row state e, f) p,
            (
              λ y. let (r, i, a) = q.0 y in (r, inr i, a),
              λ (r, i, a). elim i [
                | inl x ↦ cc (
                  f,
                  ap (λ (w : TaskRuntimeRow). w.state) x,
                  a,
                  e,
                  from_str-as_str state,
                  from_str-as_str TaskState.passing,
                )
                | inr x ↦ q.1 (r, x, a)
              ],
            ),
          )
    ]

module _ {db : Db} (o : StoreOk db) (s : SpecId) where
  -- On a consistent store `all_tasks_settled` succeeds and changes nothing, and it answers yes
  -- exactly if every task of the spec is passing or canceled.
  pub all_tasks_settled-RowSettled :
      (b : Bool) × (all_tasks_settled s db ≡ (ok b, db))
      × ((b ≡ true) ↔ ((r : TaskRuntimeRow) → In r db.task_runtime → r.spec_id ≡ s → RowSettled r))
  unfolding all_tasks_settled TaskRuntime.tasks_for_spec
  all_tasks_settled-RowSettled =
      let (b, p, q) = settled_decides (spec_rows s db) (spec_rows-Readable o s) in
      (
        b,
        rw p,
        (
          λ y r i e. q.0 y r (In-spec_rows s db r i e),
          λ y. q.1 λ r i. let (j, e) = spec_rows-In s db r i in y r j e,
        ),
      )

  -- On a consistent store `any_task_passing` succeeds and changes nothing, and it answers yes
  -- exactly if some task of the spec is passing.
  pub any_task_passing-TaskIn :
      (b : Bool) × (any_task_passing s db ≡ (ok b, db))
      × ((b ≡ true) ↔ (
          (r : TaskRuntimeRow) × In r db.task_runtime
          × (r.spec_id ≡ s)
          × (r.state ≡ TaskState.as_str TaskState.passing)))
  unfolding any_task_passing TaskRuntime.tasks_for_spec
  any_task_passing-TaskIn =
      let (b, p, q) = some_passing_decides (spec_rows s db) (spec_rows-Readable o s) in
      (
        b,
        rw p,
        (
          λ y. let (r, i, a) = q.0 y in let (j, e) = spec_rows-In s db r i in (r, j, e, a),
          λ (r, i, e, a). q.1 (r, In-spec_rows s db r i e, a),
        ),
      )
