-- ===== src/Lib.antt =====
-- Verification of boi, a daemon that drives specs through pipelines of phases. A spec is a set of
-- tasks with dependencies; workers run the phases and answer verdicts.
--
-- The parts and their files (source paths from the repository's root):
--   Types        src/types: states, ids, reasons, verdicts, decisions, events, edits of plans.
--   Transitions  src/service/transitions.rs: the legal steps of tasks and specs (check_task,
--                check_spec); Transitions/Paths has the reachability of states.
--   Repo         src/repo: the tables as a record of lists of rows (Repo/Db), and the statements of
--                task_runtime.rs, spec_runtime.rs, task_deps.rs, phase_runs.rs, decisions.rs.
--   Bus          src/service/bus.rs: EventBus::emit persists an event, then tells the observers.
--                Its child modules have the step relation of the rows and what follows from it.
--   Scheduler    src/service/scheduler.rs: ready_tasks, all_tasks_settled, any_task_passing.
--   Config       src/config/phase.rs and src/config/pipeline.rs: declarations of phases and
--                pipelines; the TOML reader is an argument. src/config/spec.rs (Config/Spec, and
--                the normalisation in Config/Normalize), the checks of src/config/validate.rs
--                (Config/Checks) and its search for a cycle (Config/Cycle).
--   Repo/Ids     src/repo/ids.rs: random ids and their allocation; the generator is an argument.
--   Repo/Dispatch  src/repo/dispatch.rs: the transaction that stores a new spec.
--   Repo/Clean   src/repo/clean.rs: the deletion of a spec from all tables.
--   Cli/Dispatch src/cli/dispatch.rs: build_dispatch, from a spec to the rows of the transaction.
--   Adjustment   src/service/adjustment.rs: the bounded side chain that proposes a fix of a task.
--   Routing      src/service/routing.rs: what runs after a verdict (route_spec, route_task in
--                Routing/Task) and the check of a pipeline (Routing/Validate).
--   PlanLayer    src/service/plan_layer.rs: the edits of a revision, and on_report and apply_revision
--                (PlanLayer/Apply), over src/repo/spec_versions.rs (Repo/SpecVersions).
--   Examples     sample stores and pipelines, and the theorems at these inputs.
-- A spec's text goes through Config, and Cli/Dispatch stores it. The plan layer adds and removes
-- tasks of a running spec. The bus writes rows through Repo and is the only writer of states. The scheduler reads the same
-- rows; the routing counts rounds in them and enters the side chain.
--
-- How the code is modelled. An `async fn` over the pool is an action `Db → Result E A × Db`
-- (Repo/Exec), which keeps what was written before an error. A statement of SQL is a function on
-- the lists of rows; ORDER BY is a stable insertion sort by the texts. Keys and foreign keys of the
-- migrations are checked where a statement inserts. A column of type JSON holds the typed value.
-- The clock is an argument `now`, one reading for each event. A `HashMap` that is only read is its
-- list of entries; the one that the scheduler fills is a list with the last insertion first.
-- `serde_json::Value` is a type parameter. A message is put together from the same pieces as in
-- the source, without the rendering of an inner error. Recursion is structural but for the search
-- for a cycle: each start gets 2 * edges + 3 rounds, and Config/Cycle/Ends shows that the rounds
-- that a search still needs, counted from the nodes not yet seen and the stack, are fewer. A
-- transaction that fails gives back the store from before it. Counters are natural numbers, and
-- the cast to u32 clamps as the source does.
--
-- Not modelled: failures of the database driver; the concurrency of the daemon beyond sequences of
-- events; the orchestrator, the sweeper; worktrees and git,
-- workers and their protocols, telemetry, the command line and the dashboard; the copy of
-- daemon-green under vendor.
mod Prelude
pub mod Types
pub mod Transitions
pub mod Repo
pub mod Bus
pub mod Scheduler
pub mod Config
pub mod Cli
pub mod PlanLayer
pub mod Adjustment
pub mod Routing
mod Examples
