-- ===== src/Repo/TaskDeps.antt =====
-- src/repo/task_deps.rs: the edges of the dependency graph.
use Prim.Native.String.{◌++◌ as text_append}
use boi.Prelude.{
  String, List, [], ◌∷◌, ◌++◌, Bool, not, ◌&&◌, Result, ok, err, ◌==◌, any, filter, map, order_by,
  text_leb, if◌then◌else◌,
}
use boi.Types.Ids.{TaskId, new_task_id, IdError}
use boi.Repo.Db.{Repo, RepoError, not_found, sqlx, TaskDepRow}
use boi.Repo.TaskRuntime.{has_id}

abbrev pub is_edge : TaskId → TaskId → TaskDepRow → Bool
is_edge task_id depends_on row = row.task_id == task_id && row.depends_on == depends_on

-- A second insertion of an edge is a success that changes nothing; a dangling end is refused.
unfoldable pub add_dep : TaskId → TaskId → Repo (Unit {0})
add_dep task_id depends_on db =
    if any (is_edge task_id depends_on) db.task_deps
    then (ok tt, db)
    else if any (has_id task_id) db.task_runtime && any (has_id depends_on) db.task_runtime
    then (
      ok tt,
      record db {
        task_deps = db.task_deps ++ record { task_id = task_id; depends_on = depends_on } ∷ [];
      },
    )
    else (err sqlx, db)

unfoldable pub remove_dep : TaskId → TaskId → Repo (Unit {0})
remove_dep task_id depends_on db = (
  ok tt,
  record db { task_deps = filter (λ row. not (is_edge task_id depends_on row)) db.task_deps },
)

corrupt : String → Result IdError TaskId → Result RepoError TaskId
corrupt s (ok task_id) = ok task_id
corrupt s (err e) = err (not_found (text_append "corrupt task id in task_deps: " s))

-- The rendering of the id error is left out of the message, which names the text instead.
unfoldable pub parse_task_id : String → Result RepoError TaskId
unfolding corrupt
parse_task_id s = corrupt s (new_task_id s)

abbrev pub cons_result :
    Result RepoError TaskId → Result RepoError (List TaskId) → Result RepoError (List TaskId)
cons_result (ok s) (ok ss) = ok (s ∷ ss)
cons_result (ok s) (err e) = err e
cons_result (err e) _ = err e

-- `rows.into_iter().map(parse_task_id).collect()` stops at the first error.
unfoldable pub collect_ids : List String → Result RepoError (List TaskId)
unfolding parse_task_id
collect_ids [] = ok []
collect_ids (s ∷ ss) = cons_result (parse_task_id s) (collect_ids ss)

unfoldable pub deps_of : TaskId → Repo (List TaskId)
deps_of task_id db = (
  collect_ids (
      order_by text_leb
        (map (λ row. row.depends_on) (filter (λ row. row.task_id == task_id) db.task_deps))),
  db,
)

unfoldable pub dependents_of : TaskId → Repo (List TaskId)
dependents_of task_id db = (
  collect_ids (
      order_by text_leb
        (map (λ row. row.task_id) (filter (λ row. row.depends_on == task_id) db.task_deps))),
  db,
)
