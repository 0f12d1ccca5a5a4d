-- ===== src/Repo/Dispatch/Atomic.antt =====
-- src/repo/dispatch.rs: the transaction as a whole.
use boi.Prelude.{
  String, List, [], ◌∷◌, ◌++◌, true, false, Result, ok, err, ◌≡◌, ◌↔◌, ◌⊎◌, inl, inr, refl, In, any,
  contains, In-contains, contains-In, In-append_right, Bool-cases, ◌&&◌, eq_iff, any_of_In,
}
use boi.Types.Ids.{SpecId}
use boi.Repo.Db.{Db, RepoError, SpecVersionRow, dispatch, is_version, has_version}
use boi.Repo.SpecRuntime
use boi.Repo.SpecRuntime.{initial_row}
use boi.Repo.SpecVersions.{version_row}
use boi.Types.Context.{Snapshot}
use boi.Repo.TaskRuntime.Rows.{ids}
use boi.Repo.Outcome.{
  Outcome, done_if, refused, Outcome-then, Outcome-weaken, Outcome-refuse, Outcome-require,
}
use boi.Repo.Dispatch.{
  DispatchRows, insert_spec, insert_version, insert_runtime, insert_tasks, insert_deps, inserts,
  commit, insert_dispatch,
}
use boi.Repo.Dispatch.Tasks.{NewIds, with_tasks, insert_tasks-NewIds}
use boi.Repo.Dispatch.Deps.{NewEdges, with_deps, insert_deps-NewEdges}

abbrev pub with_spec : SpecId → Db → Db
with_spec s db = record db { specs = db.specs ++ s ∷ [] }

abbrev pub with_version : SpecId → Snapshot → Db → Db
with_version s snapshot db = record db {
  spec_versions = db.spec_versions ++ version_row s 1 snapshot dispatch ∷ [];
}

abbrev pub with_runtime : SpecId → Db → Db
with_runtime s db = record db { spec_runtime = db.spec_runtime ++ initial_row s 1 ∷ [] }

abbrev pub with_rows : DispatchRows → Db → Db
with_rows rows db =
    let s = rows.spec_id in
    with_deps rows.deps
      (with_tasks s rows.tasks (with_runtime s (with_version s rows.snapshot (with_spec s db))))

-- Nothing of the payload is stored, nothing comes twice, and the edges join stored tasks.
pub record Fresh (rows : DispatchRows) (db : Db) : Type 0 where
  pub spec : ¬ In rows.spec_id db.specs
  pub version : has_version rows.spec_id 1 db ≡ false
  pub runtime : any (SpecRuntime.has_id rows.spec_id) db.spec_runtime ≡ false
  pub tasks : NewIds (ids db.task_runtime) rows.tasks
  pub deps :
      NewEdges (ids (with_tasks rows.spec_id rows.tasks db).task_runtime) db.task_deps rows.deps

last-In : (xs : List String) (x : String) → contains (xs ++ x ∷ []) x ≡ true
last-In xs x = In-contains (xs ++ x ∷ []) x (In-append_right x xs (x ∷ []) (inl refl))

absent-In : (xs : List String) (x : String) → (contains xs x ≡ false) ↔ (¬ In x xs)
absent-In xs x = (
  λ h i. cc (h, In-contains xs x i),
  λ h. elim (Bool-cases (contains xs x)) [ inl y ↦ absurd (h (contains-In xs x y)) | inr n ↦ n ],
)

last_version :
    (versions : List SpecVersionRow) (s : SpecId) (snapshot : Snapshot)
    → any (is_version s 1) (versions ++ version_row s 1 snapshot dispatch ∷ []) ≡ true
last_version versions s snapshot =
    let row = version_row s 1 snapshot dispatch in
    any_of_In (is_version s 1) (versions ++ row ∷ []) row
      (In-append_right row versions (row ∷ []) (inl refl)) (rw ((eq_iff s s).1 refl))

module _ (s : SpecId) (db : Db) where
  spec_step : Outcome (¬ In s db.specs) (with_spec s db) (insert_spec s db)
  unfolding insert_spec
  spec_step =
      Outcome-weaken (λ (p, _). p, λ p. (p, tt))
        (Outcome-refuse _ _ db _ (absent-In db.specs s) (done_if tt))

  version_step :
      (snapshot : Snapshot)
      → contains db.specs s ≡ true
      → Outcome
          (has_version s 1 db ≡ false)
          (with_version s snapshot db)
          (insert_version s snapshot db)
  unfolding insert_version
  version_step snapshot known =
      Outcome-weaken (λ (p, _). p, λ p. (p, known))
        (Outcome-refuse _ _ db _ (λ h. h, λ h. h) (Outcome-require _ _ db (λ h. h, λ h. h)))

  runtime_step :
      contains db.specs s ≡ true
      → has_version s 1 db ≡ true
      → Outcome
          (any (SpecRuntime.has_id s) db.spec_runtime ≡ false)
          (with_runtime s db)
          (insert_runtime s db)
  unfolding insert_runtime
  runtime_step known stored =
      Outcome-weaken (λ (p, _). p, λ p. (p, rw (known, stored)))
        (Outcome-refuse _ _ db _ (λ h. h, λ h. h)
          (Outcome-require (contains db.specs s && has_version s 1 db) _ db (λ h. h, λ h. h)))

module _ (rows : DispatchRows) (db : Db) where
  inserts-Fresh : Outcome (Fresh rows db) (with_rows rows db) (inserts rows db)
  unfolding inserts
  inserts-Fresh =
      let s = rows.spec_id in
      let db1 = with_spec s db in
      let db2 = with_version s rows.snapshot db1 in
      let db3 = with_runtime s db2 in
      let db4 = with_tasks s rows.tasks db3 in
      let known = last-In db.specs s in
      Outcome-weaken
        (
          λ (a, (b, (c, (d, e)))). record {
            spec = a;
            version = b;
            runtime = c;
            tasks = d;
            deps = e;
          },
          λ f. (f.spec, (f.version, (f.runtime, (f.tasks, f.deps)))),
        )
        (Outcome-then db1 _ (insert_spec s) _ db (spec_step s db) (
          Outcome-then db2 _ (insert_version s rows.snapshot) _ db1
            (version_step s db1 rows.snapshot known)
            (Outcome-then db3 _ (insert_runtime s) _ db2
              (runtime_step s db2 known (last_version db.spec_versions s rows.snapshot))
              (Outcome-then db4 _ (insert_tasks s rows.tasks) (insert_deps rows.deps) db3
                (insert_tasks-NewIds s rows.tasks db3 known)
                (insert_deps-NewEdges rows.deps db4)))))

committed :
    {P : Type 0} {done : Db} (db : Db) (o : Result RepoError (Unit {0}) × Db)
    → Outcome P done o
    → (P × (commit db o.0 o.1 ≡ (ok tt, done)))
      ⊎ ((¬ P) × ((e : RepoError) × (commit db o.0 o.1 ≡ (err e, db))))
committed db _ (done_if p) = inl (p, refl)
committed db _ (refused e after n) = inr (n, (e, refl))

-- Either the payload is new to the store, and exactly its rows are added: the spec, its first
-- version, its queued runtime row, a row in `not_started` for each task, and the edges; or the
-- payload is not new, and the insertion is an error that leaves the store as it was.
pub insert_dispatch-Fresh :
    (rows : DispatchRows) (db : Db)
    → (Fresh rows db × (insert_dispatch rows db ≡ (ok tt, with_rows rows db)))
      ⊎ ((¬ Fresh rows db) × ((e : RepoError) × (insert_dispatch rows db ≡ (err e, db))))
unfolding insert_dispatch
insert_dispatch-Fresh rows db = committed db (inserts rows db) (inserts-Fresh rows db)
