-- ===== src/Repo/TaskRuntime/Rows.antt =====
-- What an UPDATE of one row by its id does to the rows of tasks.
use boi.Prelude.{
  String, List, [], ◌∷◌, some, ◌≡◌, ◌≢◌, ◌⊎◌, inl, inr, refl, sym, ap, arith, ◌==◌, eq_iff, ==-ne,
  find, In, All, All-In, ==-false, ◌∙◌, map, Bool-cases,
}
use boi.Types.Ids.{TaskId}
use boi.Repo.Db.{TaskRuntimeRow}
use boi.Repo.TaskRuntime.{has_id, write_row}

abbrev pub ids : List TaskRuntimeRow → List String
ids rows = map (λ row. row.task_id) rows

-- The primary key: no id stands twice.
abbrev pub Unique : List TaskRuntimeRow → Type 0
Unique [] = Unit
Unique (row ∷ rows) = All (λ r. r.task_id ≢ row.task_id) rows × Unique rows

-- A change of a row that keeps its key and its spec.
abbrev pub KeepsKey : (TaskRuntimeRow → TaskRuntimeRow) → Type 0
KeepsKey f =
    (row : TaskRuntimeRow) → ((f row).task_id ≡ row.task_id) × ((f row).spec_id ≡ row.spec_id)

module _ (i : TaskId) (f : TaskRuntimeRow → TaskRuntimeRow) where
  -- A row of the table after the UPDATE is an old one, changed exactly if it has the id.
  pub In-of_In-write_row :
      (r : TaskRuntimeRow) (rows : List TaskRuntimeRow)
      → In r (write_row i f rows)
      → (old : TaskRuntimeRow) × In old rows
        × (((old.task_id ≡ i) × (r ≡ f old)) ⊎ ((old.task_id ≢ i) × (r ≡ old)))
  unfolding write_row
  In-of_In-write_row r [] m = elim m [ ]
  In-of_In-write_row r (x ∷ rows) (inl e) = elim (Bool-cases (x.task_id == i)) [
    | inl t ↦ (x, inl refl, inl ((eq_iff x.task_id i).0 t, rw t at e))
    | inr n ↦ (x, inl refl, inr (==-ne x.task_id i n, rw n at e))
  ]
  In-of_In-write_row r (x ∷ rows) (inr m) =
      let (old, there, how) = In-of_In-write_row r rows m in (old, inr there, how)

  pub In-write_row_ne :
      (r : TaskRuntimeRow) (rows : List TaskRuntimeRow)
      → In r rows
      → r.task_id ≢ i
      → In r (write_row i f rows)
  unfolding write_row
  In-write_row_ne r [] m h = elim m [ ]
  In-write_row_ne r (x ∷ rows) (inl e) h = inl (ground (arith, eq_iff x.task_id i))
  In-write_row_ne r (x ∷ rows) (inr m) h = inr (In-write_row_ne r rows m h)

  pub In-write_row_self :
      (r : TaskRuntimeRow) (rows : List TaskRuntimeRow)
      → In r rows
      → r.task_id ≡ i
      → In (f r) (write_row i f rows)
  unfolding write_row
  In-write_row_self r [] m h = elim m [ ]
  In-write_row_self r (x ∷ rows) (inl e) h = inl (ground (arith, eq_iff x.task_id i))
  In-write_row_self r (x ∷ rows) (inr m) h = inr (In-write_row_self r rows m h)

  pub All-write_row :
      (P : TaskRuntimeRow → Type 0) (rows : List TaskRuntimeRow)
      → ((r : TaskRuntimeRow) → In r rows → r.task_id ≡ i → P r → P (f r))
      → All P rows
      → All P (write_row i f rows)
  unfolding write_row
  All-write_row P [] h ps = tt
  All-write_row P (x ∷ rows) h (p, ps) = elim (Bool-cases (x.task_id == i)) [
    | inl t ↦
        rw t (
          h x (inl refl) ((eq_iff x.task_id i).0 t) p,
          All-write_row P rows (λ r m. h r (inr m)) ps,
        )
    | inr n ↦ rw n (p, All-write_row P rows (λ r m. h r (inr m)) ps)
  ]

module _ (i : TaskId) (f : TaskRuntimeRow → TaskRuntimeRow) (keep : KeepsKey f) where
  pub ids-write_row : (rows : List TaskRuntimeRow) → ids (write_row i f rows) ≡ ids rows
  unfolding write_row
  ids-write_row [] = refl
  ids-write_row (x ∷ rows) = ground (arith, keep x, ids-write_row rows)

  ne-write_row :
      (k : TaskId) (rows : List TaskRuntimeRow)
      → All (λ r. r.task_id ≢ k) rows
      → All (λ r. r.task_id ≢ k) (write_row i f rows)
  ne-write_row k rows h =
      All-write_row i f (λ r. r.task_id ≢ k) rows (λ r m e n. rw ((keep r).0) n) h

  pub Unique-write_row : (rows : List TaskRuntimeRow) → Unique rows → Unique (write_row i f rows)
  unfolding write_row
  Unique-write_row [] u = tt
  Unique-write_row (x ∷ rows) (n, u) = elim (Bool-cases (x.task_id == i)) [
    | inl t ↦ rw (t, (keep x).0) (ne-write_row x.task_id rows n, Unique-write_row rows u)
    | inr e ↦ rw e (ne-write_row x.task_id rows n, Unique-write_row rows u)
  ]

-- With the key unique, `fetch` finds the row that has the id.
pub find-In :
    (i : TaskId) (rows : List TaskRuntimeRow) {row : TaskRuntimeRow}
    → find (has_id i) rows ≡ some row
    → In row rows × (row.task_id ≡ i)
find-In i [] e = cc
find-In i (x ∷ rows) {row} e = elim (Bool-cases (x.task_id == i)) [
  | inl t ↦ let p : x ≡ row = ground arith in (inl (sym p), rw (← p) ((eq_iff x.task_id i).0 t))
  | inr n ↦ let r = find-In i rows {row = row} (ground arith) in (inr r.0, r.1)
]

pub Unique-In :
    (rows : List TaskRuntimeRow) (a b : TaskRuntimeRow)
    → Unique rows
    → In a rows
    → In b rows
    → a.task_id ≡ b.task_id
    → a ≡ b
Unique-In [] a b u ma mb e = elim ma [ ]
Unique-In (x ∷ rows) a b u (inl p) (inl q) e = p ∙ sym q
Unique-In (x ∷ rows) a b (n, u) (inl p) (inr q) e = absurd (
    All-In (λ r. r.task_id ≢ x.task_id) rows n b q
      (sym e ∙ ap (λ (r : TaskRuntimeRow). r.task_id) p))
Unique-In (x ∷ rows) a b (n, u) (inr p) (inl q) e =
    absurd (
      All-In (λ r. r.task_id ≢ x.task_id) rows n a p (e ∙ ap (λ (r : TaskRuntimeRow). r.task_id) q))
Unique-In (x ∷ rows) a b (n, u) (inr p) (inr q) e = Unique-In rows a b u p q e

pub find_of_In :
    (rows : List TaskRuntimeRow) (row : TaskRuntimeRow)
    → Unique rows
    → In row rows
    → find (has_id row.task_id) rows ≡ some row
find_of_In [] row u m = elim m [ ]
find_of_In (x ∷ rows) row u (inl e) = rw (e, (eq_iff x.task_id x.task_id).1 refl)
find_of_In (x ∷ rows) row (n, u) (inr m) =
    rw
      (==-false x.task_id row.task_id
        (λ e. All-In (λ r. r.task_id ≢ x.task_id) rows n row m (sym e)))
      (find_of_In rows row u m)
