-- ===== src/Scheduler/StateMap.antt =====
-- src/service/scheduler.rs: the map of states against the rows that it is built from.
use boi.Prelude.{
  String, List, [], ◌∷◌, some, ok, ◌≡◌, ◌⊎◌, inl, inr, refl, arith, In, ◌==◌, eq_iff, ==-ne,
  Bool-cases,
}
use boi.Types.TaskState
use boi.Types.TaskState.{TaskState, from_str-as_str, as_str_of_from_str}
use boi.Repo.Db.{TaskRuntimeRow}
use boi.Scheduler.States.{StateById, get, index_states, parse_state}

-- Every row's text is a state's.
abbrev pub Readable : List TaskRuntimeRow → Type 0
Readable rows =
    (r : TaskRuntimeRow) → In r rows → (state : TaskState) × (r.state ≡ TaskState.as_str state)

-- Rows of one id are one row.
abbrev pub Functional : List TaskRuntimeRow → Type 0
Functional rows = (a b : TaskRuntimeRow) → In a rows → In b rows → a.task_id ≡ b.task_id → a ≡ b

parse_state_ok :
    (id s : String) (state : TaskState) → s ≡ TaskState.as_str state → parse_state id s ≡ ok state
unfolding parse_state
parse_state_ok id s state e = rw (e, from_str-as_str state)

pub index_states_total :
    (m : StateById) (rows : List TaskRuntimeRow)
    → Readable rows
    → (M : StateById) × (index_states m rows ≡ ok M)
unfolding index_states
index_states_total m [] h = (m, refl)
index_states_total m (row ∷ rows) h =
    let (state, e) = h row (inl refl) in
    let (M, p) = index_states_total ((row.task_id, state) ∷ m) rows (λ r i. h r (inr i)) in
    (M, rw (parse_state_ok row.task_id row.state state e) p)

-- What the map holds comes from a row, or was there before.
get_sound :
    (m M : StateById) (rows : List TaskRuntimeRow) (k : String) (state : TaskState)
    → Readable rows
    → index_states m rows ≡ ok M
    → get M k ≡ some state
    → ((r : TaskRuntimeRow) × In r rows × (r.task_id ≡ k) × (r.state ≡ TaskState.as_str state))
      ⊎ (get m k ≡ some state)
unfolding index_states get
get_sound m M [] k state h e g = inr (ground arith)
get_sound m M (row ∷ rows) k state h e g =
    let (st, p) = h row (inl refl) in
    let e' : index_states ((row.task_id, st) ∷ m) rows ≡ ok M =
      rw (parse_state_ok row.task_id row.state st p) at e in
    elim (get_sound ((row.task_id, st) ∷ m) M rows k state (λ r i. h r (inr i)) e' g) [
      | inl (r, i, q, a) ↦ inl (r, inr i, q, a)
      | inr q ↦ elim (Bool-cases (row.task_id == k)) [
        | inl t ↦
            let s : st ≡ state = ground (arith, q, t) in
            inl (row, inl refl, (eq_iff row.task_id k).0 t, rw (← s) p)
        | inr n ↦ inr (ground (arith, q, n))
      ]
    ]

-- A row's state is in the map, if rows of one id are one row.
get_complete :
    (m M : StateById) (rows : List TaskRuntimeRow) (k : String) (state : TaskState)
    → Readable rows
    → index_states m rows ≡ ok M
    → ((r : TaskRuntimeRow) → In r rows → r.task_id ≡ k → r.state ≡ TaskState.as_str state)
    → ((r : TaskRuntimeRow) × In r rows × (r.task_id ≡ k)) ⊎ (get m k ≡ some state)
    → get M k ≡ some state
unfolding index_states get
get_complete m M [] k state h e same (inl (r, i, q)) = elim i [ ]
get_complete m M [] k state h e same (inr g) = ground (arith, g, e)
get_complete m M (row ∷ rows) k state h e same w =
    let (st, p) = h row (inl refl) in
    let e' : index_states ((row.task_id, st) ∷ m) rows ≡ ok M =
      rw (parse_state_ok row.task_id row.state st p) at e in
    get_complete ((row.task_id, st) ∷ m) M rows k state (λ r i. h r (inr i)) e'
      (λ r i q. same r (inr i) q)
      (elim (Bool-cases (row.task_id == k)) [
        | inl t ↦
            let a : row.state ≡ TaskState.as_str state =
              same row (inl refl) ((eq_iff row.task_id k).0 t) in
            inr (ground (arith, t, a, p, from_str-as_str st, from_str-as_str state))
        | inr n ↦ elim w [
          | inl (r, inl i, q) ↦ absurd (==-ne row.task_id k n (rw (← i) q))
          | inl (r, inr i, q) ↦ inl (r, i, q)
          | inr g ↦ inr (ground (arith, n, g))
        ]
      ])

-- The finished map: a task has a state there exactly if a row of the task has it.
pub record Describes (M : StateById) (rows : List TaskRuntimeRow) : Type 0 where
  pub sound :
      (k : String) (state : TaskState)
      → get M k ≡ some state
      → (r : TaskRuntimeRow) × In r rows × (r.task_id ≡ k) × (r.state ≡ TaskState.as_str state)
  pub complete :
      (r : TaskRuntimeRow) (state : TaskState)
      → In r rows
      → r.state ≡ TaskState.as_str state
      → get M r.task_id ≡ some state

pub index_states-Describes :
    (rows : List TaskRuntimeRow) (M : StateById)
    → Readable rows
    → Functional rows
    → index_states [] rows ≡ ok M
    → Describes M rows
unfolding get
index_states-Describes rows M h f e = record {
  sound = λ k state g. elim (get_sound [] M rows k state h e g) [ inl w ↦ w | inr q ↦ cc ];
  complete = λ r state i a.
      get_complete [] M rows r.task_id state h e (λ r' i' q. rw (f r' r i' i q) a)
        (inl (r, i, refl));
}
