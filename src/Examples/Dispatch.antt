-- ===== src/Examples/Dispatch.antt =====
-- The dispatch of the small spec into the sample store, and the allocation of ids in it.
use boi.Prelude.{
  concat, ℕ, zero, suc, List, [], ◌∷◌, ◌++◌, none, ok, err, ◌≡◌, ◌⊎◌, inl, inr, refl, ap, arith, In,
  contains,
}
use boi.Types.Ids.{TaskId, new_with}
use boi.Repo.Db.{duplicate, Db, RepoError, TaskDepRow, id_exhausted}
use boi.Repo.TaskRuntime.{insert_task}
use boi.Repo.Ids.{random_id, is_taken, allocate_spec_id, allocate_decision_id}
use boi.Repo.Ids.Form.{InRange, random_id-valid}
use boi.Repo.Ids.First.{First, allocate_spec_id-First, allocate_decision_id-First}
use boi.Repo.Dispatch.{DispatchRows, insert_dispatch}
use boi.Repo.Dispatch.Atomic.{Fresh, with_rows, insert_dispatch-Fresh}
use boi.Scheduler.{ready_tasks}
use boi.Scheduler.Ready.{StoreOk}
use boi.Cli.Dispatch.{DispatchPlan, plan_of, build_dispatch}
use boi.Cli.Dispatch.Builds.{with_ids}
use boi.Cli.Dispatch.Starts.{Referenced, dispatched_spec_is_ready}
use boi.Examples.Store.{store}
use boi.Examples.Scheduler.{store-StoreOk}
use boi.Examples.Config.{spec, reader, parse_ok}

-- Ids that differ in their digits.
abbrev draws : ℕ → ℕ → ℕ
draws zero i = 4
draws (suc zero) i = 5
draws (suc (suc k)) i = 6

draws-InRange : (k : ℕ) → InRange (draws k)
draws-InRange zero i = omega arith
draws-InRange (suc zero) i = omega arith
draws-InRange (suc (suc k)) i = omega arith

abbrev plan : DispatchPlan
plan =
    plan_of spec "S44444444" (with_ids draws 1 spec.tasks)
      (record { task_id = "T66666666"; depends_on = "T55555555" } ∷ [])

plan_built : build_dispatch draws spec ≡ ok plan
unfolding build_dispatch new_with random_id
plan_built = refl

abbrev after : Db
after = with_rows plan.rows store

plan_inserted : insert_dispatch plan.rows store ≡ (ok tt, after)
unfolding insert_dispatch insert_task random_id
plan_inserted = refl

store-Referenced : Referenced store
store-Referenced e (inl p) = inr (inr (inl (ap (λ (r : TaskDepRow). r.task_id) p)))
store-Referenced e (inr (inl p)) = inr (inr (inl (ap (λ (r : TaskDepRow). r.task_id) p)))
store-Referenced e (inr (inr i)) = elim i [ ]

dispatched_spec_is_ready_example :
    StoreOk after
    × ((ready : List TaskId) × (ready_tasks "S44444444" after ≡ (ok ready, after))
        × ((t : TaskId) × In t ready))
dispatched_spec_is_ready_example =
    dispatched_spec_is_ready reader none "" spec parse_ok draws draws-InRange plan plan_built store
      after store-StoreOk store-Referenced plan_inserted

insert_dispatch-Fresh_example :
    (Fresh plan.rows store × (insert_dispatch plan.rows store ≡ (ok tt, after)))
    ⊎ ((¬ Fresh plan.rows store)
        × ((e : RepoError) × (insert_dispatch plan.rows store ≡ (err e, store))))
insert_dispatch-Fresh_example = insert_dispatch-Fresh plan.rows store

random_id-valid_example : new_with b'T' (random_id "T" (draws 1)) ≡ ok (random_id "T" (draws 1))
random_id-valid_example = random_id-valid "T" (draws 1) (draws-InRange 1)

allocate_decision_id-First_example :
    First
      (λ k. random_id "D" (draws k))
      (is_taken store)
      (λ id. (ok id, store))
      (err (id_exhausted b'D' 5), store)
      0
      5
      (allocate_decision_id draws store)
allocate_decision_id-First_example = allocate_decision_id-First draws draws-InRange store

allocate_spec_id-First_example :
    First
      (λ k. random_id "S" (draws k))
      (contains store.specs)
      (λ id. (ok id, record store { specs = store.specs ++ id ∷ [] }))
      (err (id_exhausted b'S' 5), store)
      0
      5
      (allocate_spec_id draws store)
allocate_spec_id-First_example = allocate_spec_id-First draws draws-InRange store

-- The rows of a spec that names a ref twice in one `blocked_by`.
abbrev repeated_rows : DispatchRows
repeated_rows = record plan.rows {
  deps =
      (record { task_id = "T66666666"; depends_on = "T55555555" })
      ∷ (record { task_id = "T66666666"; depends_on = "T55555555" })
      ∷ [];
}

repeated_refused :
    insert_dispatch repeated_rows store
    ≡ (err (duplicate "task_deps edge T66666666 → T55555555 already exists"), store)
unfolding insert_dispatch insert_task random_id concat
repeated_refused = refl
