-- ===== src/PlanLayer/Apply/Edges.antt =====
-- src/service/plan_layer.rs: the edges that a `RetargetDeps` leaves.
use boi.Prelude.{
  List, [], ◌∷◌, ◌++◌, Bool, true, false, not, ok, ◌≡◌, ◌≢◌, ◌↔◌, ◌⊎◌, inl, inr, refl, sym, ap,
  subst, ◌∙◌, In, and_iff, ==-ne, any, filter, contains, contains-In, In-contains, any-In,
  Bool-cases, ◌==◌, eq_iff, In-append_left, In-append_right, In-of_In-append, In-filter,
  In-of_In-filter,
}
use boi.Types.Ids.{TaskId}
use boi.Repo.Db.{Db, TaskDepRow}
use boi.Repo.TaskRuntime.{has_id}
use boi.Repo.TaskRuntime.Rows.{ids}
use boi.Repo.TaskDeps.{is_edge, add_dep, remove_dep}
use boi.Repo.Dispatch.Tasks.{any_id}
use boi.Scheduler.Ready.{StoreOk, deps_list, deps_list-DependsOn, deps_of_ok}
use boi.PlanLayer.{add_deps, drop_deps, retarget}

abbrev pub with_edges : List TaskDepRow → Db → Db
with_edges edges db = record db { task_deps = edges }

is_edge-eq :
    (t d : TaskId) (e : TaskDepRow)
    → (is_edge t d e ≡ true) ↔ ((e.task_id ≡ t) × (e.depends_on ≡ d))
is_edge-eq t d e = and_iff _ _ (eq_iff e.task_id t) (eq_iff e.depends_on d)

-- The edge is one from the task to one of the others.
abbrev From : TaskId → List TaskId → TaskDepRow → Type 0
From t ds e = (e.task_id ≡ t) × In e.depends_on ds

stored : (x : TaskId) (db : Db) → In x (ids db.task_runtime) → any (has_id x) db.task_runtime ≡ true
stored x db i = any_id x db.task_runtime ∙ In-contains (ids db.task_runtime) x i

add_one :
    (t d : TaskId) (db : Db)
    → In t (ids db.task_runtime)
    → In d (ids db.task_runtime)
    → (edges : List TaskDepRow) × (add_dep t d db ≡ (ok tt, with_edges edges db))
      × ((e : TaskDepRow)
          → In e edges ↔ (In e db.task_deps ⊎ ((e.task_id ≡ t) × (e.depends_on ≡ d))))
unfolding add_dep
add_one t d db i j = elim (Bool-cases (any (is_edge t d) db.task_deps)) [
  | inl y ↦
      let (x, k, q) = any-In (is_edge t d) db.task_deps y in
      (
        db.task_deps,
        rw y,
        λ e. (
          λ m. inl m,
          λ m. elim m [
            | inl n ↦ n
            | inr (p, r) ↦
                let w = (is_edge-eq t d x).0 q in
                let same : x ≡ e =
                  λ z. record { task_id = (w.0 ∙ sym p) z; depends_on = (w.1 ∙ sym r) z } in
                subst (λ r. In r db.task_deps) same k
          ],
        ),
      )
  | inr n ↦
      let row : TaskDepRow = record { task_id = t; depends_on = d } in
      (
        db.task_deps ++ row ∷ [],
        rw (n, stored t db i, stored d db j),
        λ e. (
          λ m. elim (In-of_In-append e db.task_deps (row ∷ []) m) [
            | inl k ↦ inl k
            | inr (inl p) ↦
                inr (ap (λ (r : TaskDepRow). r.task_id) p, ap (λ (r : TaskDepRow). r.depends_on) p)
            | inr (inr z) ↦ elim z [ ]
          ],
          λ m. elim m [
            | inl k ↦ In-append_left e db.task_deps _ k
            | inr (p, r) ↦
                In-append_right e db.task_deps (row ∷ [])
                  (inl (λ z. record { task_id = p z; depends_on = r z }))
          ],
        ),
      )
]

add_deps-From :
    (t : TaskId) (ds : List TaskId) (db : Db)
    → In t (ids db.task_runtime)
    → ((d : TaskId) → In d ds → In d (ids db.task_runtime))
    → (edges : List TaskDepRow) × (add_deps t ds db ≡ (ok tt, with_edges edges db))
      × ((e : TaskDepRow) → In e edges ↔ (In e db.task_deps ⊎ From t ds e))
unfolding add_deps
add_deps-From t [] db i h =
    (db.task_deps, refl, λ e. (λ m. inl m, λ m. elim m [ inl n ↦ n | inr (_, z) ↦ elim z [ ] ]))
add_deps-From t (d ∷ ds) db i h =
    let (one, p, first) = add_one t d db i (h d (inl refl)) in
    let (edges, q, rest) = add_deps-From t ds (with_edges one db) i (λ x j. h x (inr j)) in
    (
      edges,
      rw (p, q),
      λ e. (
        λ m. elim ((rest e).0 m) [
          | inr (a, k) ↦ inr (a, inr k)
          | inl k ↦ elim ((first e).0 k) [ inl old ↦ inl old | inr (a, b) ↦ inr (a, inl b) ]
        ],
        λ m. (rest e).1 (elim m [
          | inl k ↦ inl ((first e).1 (inl k))
          | inr (a, inl b) ↦ inl ((first e).1 (inr (a, b)))
          | inr (a, inr k) ↦ inr (a, k)
        ]),
      ),
    )

-- The edge is one that is dropped.
abbrev Dropped : TaskId → List TaskId → List TaskId → TaskDepRow → Type 0
Dropped t new olds e = (e.task_id ≡ t) × In e.depends_on olds × (¬ In e.depends_on new)

not-flip : (b : Bool) → (not b ≡ true) ↔ (b ≡ false)
not-flip true = (λ h. cc h, λ h. cc h)
not-flip false = (λ _. refl, λ _. refl)

drop_one :
    (t d : TaskId) (edges : List TaskDepRow) (e : TaskDepRow)
    → In e (filter (λ row. not (is_edge t d row)) edges)
      ↔ (In e edges × (¬ ((e.task_id ≡ t) × (e.depends_on ≡ d))))
drop_one t d edges e = (
  λ m.
      let (i, h) = In-of_In-filter (λ row. not (is_edge t d row)) e edges m in
      (i, λ w. cc ((not-flip _).0 h, (is_edge-eq t d e).1 w)),
  λ (i, n).
      In-filter (λ row. not (is_edge t d row)) e edges i
        (elim (Bool-cases (is_edge t d e)) [
          | inl y ↦ absurd (n ((is_edge-eq t d e).0 y))
          | inr f ↦ (not-flip _).1 f
        ]),
)

drop_deps-Dropped :
    (t : TaskId) (new olds : List TaskId) (db : Db)
    → (edges : List TaskDepRow) × (drop_deps t new olds db ≡ (ok tt, with_edges edges db))
      × ((e : TaskDepRow) → In e edges ↔ (In e db.task_deps × (¬ Dropped t new olds e)))
unfolding drop_deps remove_dep
drop_deps-Dropped t new [] db =
    (db.task_deps, refl, λ e. (λ m. (m, λ (_, z, _). elim z [ ]), λ (m, _). m))
drop_deps-Dropped t new (d ∷ olds) db = elim (Bool-cases (contains new d)) [
  | inl y ↦
      let (edges, p, exact) = drop_deps-Dropped t new olds db in
      (
        edges,
        rw (y, p),
        λ e. (
          λ m.
              let (i, n) = (exact e).0 m in
              (
                i,
                λ (a, k, b). elim k [
                  | inl q ↦ b (subst (λ x. In x new) (sym q) (contains-In new d y))
                  | inr j ↦ n (a, j, b)
                ],
              ),
          λ (i, n). (exact e).1 (i, λ (a, j, b). n (a, inr j, b)),
        ),
      )
  | inr f ↦
      let left = filter (λ row. not (is_edge t d row)) db.task_deps in
      let (edges, p, exact) = drop_deps-Dropped t new olds (with_edges left db) in
      (
        edges,
        rw (f, p),
        λ e. (
          λ m.
              let (i, n) = (exact e).0 m in
              let (j, apart) = (drop_one t d db.task_deps e).0 i in
              (j, λ (a, k, b). elim k [ inl q ↦ apart (a, q) | inr l ↦ n (a, l, b) ]),
          λ (i, n). (exact e).1 (
            (drop_one t d db.task_deps e).1 (i, λ (a, q). n (a, inl q, λ j. not_in f q j)),
            λ (a, l, b). n (a, inr l, b),
          ),
        ),
      )
]
  where
    not_in : contains new d ≡ false → {x : TaskId} → x ≡ d → ¬ In x new
    not_in f q j = cc (f, In-contains new d (subst (λ z. In z new) q j))

-- A `RetargetDeps` on a consistent store, of a stored task to stored tasks, succeeds and changes
-- only the edges: from the task there is afterwards an edge exactly to each of the new
-- dependencies, and the edges of the other tasks are those from before.
pub retarget-From :
    (t : TaskId) (new : List TaskId) (db : Db)
    → StoreOk db
    → In t (ids db.task_runtime)
    → ((d : TaskId) → In d new → In d (ids db.task_runtime))
    → (edges : List TaskDepRow) × (retarget t new db ≡ (ok tt, with_edges edges db))
      × ((e : TaskDepRow)
          → In e edges
            ↔ (((e.task_id ≢ t) × In e db.task_deps) ⊎ ((e.task_id ≡ t) × In e.depends_on new)))
unfolding retarget
retarget-From t new db o i h =
    let (kept, p, dropped) = drop_deps-Dropped t new (deps_list t db) db in
    let (edges, q, added) = add_deps-From t new (with_edges kept db) i h in
    (
      edges,
      rw (deps_of_ok o t, p, q),
      λ e. (
        λ m. elim ((added e).0 m) [
          | inr w ↦ inr w
          | inl k ↦
              let (stands, n) = (dropped e).0 k in
              elim (Bool-cases (e.task_id == t)) [
                | inr f ↦ inl (==-ne e.task_id t f, stands)
                | inl y ↦
                    let same = (eq_iff e.task_id t).0 y in
                    elim (Bool-cases (contains new e.depends_on)) [
                      | inl z ↦ inr (same, contains-In new e.depends_on z)
                      | inr z ↦ absurd (
                          n (
                            same,
                            (deps_list-DependsOn t e.depends_on db).1 (e, stands, same, refl),
                            λ j. cc (z, In-contains new e.depends_on j),
                          ))
                    ]
              ]
        ],
        λ m. (added e).1 (elim m [
          | inr w ↦ inr w
          | inl (apart, stands) ↦ inl ((dropped e).1 (stands, λ (a, _, _). apart a))
        ]),
      ),
    )
