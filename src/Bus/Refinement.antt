-- ===== src/Bus/Refinement.antt =====
-- src/service/bus.rs, `persist` and `emit`, as runs of the lifecycle machine of Bus/Lifecycle.
use boi.Prelude.{
  ℕ, List, [], ◌∷◌, Bool, true, false, Option, none, some, Result, ok, err, ◌≡◌, refl, arith,
  if◌then◌else◌, String, Option-cases, inl, inr,
}
use boi.Types.Ids.{SpecId, TaskId, PhaseRunId}
use boi.Types.Verdict.{WorkerVerdict}
use boi.Types.Decision.{DecisionRecord}
use boi.Types.Reasons.{BlockedReason, CancellationReason}
use boi.Types.TaskState.{TaskState}
use boi.Types.SpecStatus.{SpecStatus}
use boi.Types.Event.{
  BoiEvent, spec_started, spec_completed, spec_failed, spec_canceled, task_started, task_blocked,
  task_unblocked, task_passed, task_canceled, phase_started, phase_completed, decision_made,
}
use boi.Repo.Exec.{pure, lift, convert, continue, ◌>>=◌}
use boi.Repo.Db.{Db, Repo, TerminalReason, cancellation, TaskRuntimeRow}
use boi.Repo.TaskRuntime
use boi.Repo.TaskRuntime.{cancellation_of}
use boi.Repo.SpecRuntime
use boi.Repo.PhaseRuns
use boi.Repo.Decisions
use boi.Bus.{
  Bus, BusError, persist_failed, parse_task_state, parse_stored_id, transition_task, cancel_active,
  cancel_stranded_active_tasks, transition_spec, start_phase_run, end_phase_run, persist, emit,
  EventBus, is_active,
}
use boi.Bus.Lifecycle.{Fits, FitsCall, TaskSteps, done, TaskSteps-trans, transition_task-TaskSteps}

-- An action moves the table of tasks along the lifecycle, whether it succeeds or fails.
pub record Moves {A : Type 0} (m : Bus A) : Type 0 where
  pub run : (db : Db) → TaskSteps db.task_runtime (m db).1.task_runtime

-- A statement that leaves the table of tasks alone.
pub record Leaves {A : Type 0} (m : Repo A) : Type 0 where
  pub same : (db : Db) → (m db).1.task_runtime ≡ db.task_runtime

module _ {A : Type 0} where
  Moves-lift : (r : Result BusError A) → Moves (lift r)
  Moves-lift r = record { run = λ db. done }

  Moves-convert : (m : Repo A) → Leaves m → Moves (convert persist_failed m)
  Moves-convert m h = record { run = λ db. rw (h.same db) done }

  Moves-if : (b : Bool) (m n : Bus A) → Moves m → Moves n → Moves (if b then m else n)
  Moves-if true m n hm hn = hm
  Moves-if false m n hm hn = hn

module _ {A B : Type 0} where
  Moves-continue :
      (rows : List TaskRuntimeRow) (r : Result BusError A) (f : A → Bus B) (db : Db)
      → TaskSteps rows db.task_runtime
      → ((a : A) → Moves (f a))
      → TaskSteps rows (continue r f db).1.task_runtime
  Moves-continue rows (ok a) f db s h = TaskSteps-trans s ((h a).run db)
  Moves-continue rows (err e) f db s h = s

  Moves-bind : (m : Bus A) (f : A → Bus B) → Moves m → ((a : A) → Moves (f a)) → Moves (m >>= f)
  Moves-bind m f hm hf = record {
    run = λ db. let (r, db') = m db in Moves-continue db.task_runtime r f db' (hm.run db) hf;
  }

Moves-pure : Moves (pure tt)
Moves-pure = record { run = λ db. done }

ruleset moves_rules = (Moves-lift, Moves-convert, Moves-if, Moves-bind, Moves-pure)

Leaves-fetch_spec : (s : SpecId) → Leaves (SpecRuntime.fetch s)
unfolding SpecRuntime.fetch
Leaves-fetch_spec s = record { same = λ db. refl }

Leaves-tasks_for_spec : (s : SpecId) → Leaves (TaskRuntime.tasks_for_spec s)
unfolding TaskRuntime.tasks_for_spec
Leaves-tasks_for_spec s = record { same = λ db. refl }

Leaves-update_status :
    (s : SpecId) (to : SpecStatus) (r : Option TerminalReason) (now : ℕ)
    → Leaves (SpecRuntime.update_status s to r now)
unfolding SpecRuntime.update_status
Leaves-update_status s to r now = record { same = λ db. ground arith }

ruleset leaves_rules = (Leaves-fetch_spec, Leaves-tasks_for_spec, Leaves-update_status)

module _ (t : TaskId) (to : TaskState) (tr : Option TerminalReason) (b : Option BlockedReason)
    (now : ℕ) (fits : FitsCall t to tr b) where
  Moves-transition_task : Moves (transition_task t to tr b now)
  Moves-transition_task = record { run = λ db. transition_task-TaskSteps t to tr b now db fits }

Moves-cancel :
    (t : TaskId) (reason : CancellationReason) (now : ℕ)
    → Moves (transition_task t TaskState.canceled (some (cancellation reason)) none now)
Moves-cancel t reason now = Moves-transition_task t _ _ _ now fits
  where
    fits : FitsCall t TaskState.canceled (some (cancellation reason)) none
    fits c e = unfold cancellation_of in ground arith

Moves-cancel_active : (now : ℕ) (rows : List TaskRuntimeRow) → Moves (cancel_active now rows)
unfolding cancel_active
Moves-cancel_active now [] = Moves-pure
Moves-cancel_active now (row ∷ rows) =
    Moves-bind (lift (parse_task_state row.state)) _ (Moves-lift _) λ state.
      Moves-if (is_active state) _ _
        (Moves-bind (lift (parse_stored_id row.task_id)) _ (Moves-lift _) λ t.
          Moves-bind (transition_task t _ _ _ now) _ (Moves-cancel t _ now)
            λ _. Moves-cancel_active now rows)
        (Moves-cancel_active now rows)

Moves-cascade : (s : SpecId) (now : ℕ) → Moves (cancel_stranded_active_tasks s now)
unfolding cancel_stranded_active_tasks
Moves-cascade s now = search (moves_rules, leaves_rules, Moves-cancel_active)

Moves-transition_spec :
    (s : SpecId) (to : SpecStatus) (r : Option TerminalReason) (now : ℕ)
    → Moves (transition_spec s to r now)
unfolding transition_spec
Moves-transition_spec s to r now = search (moves_rules, leaves_rules, Moves-cascade) depth 12

module _ (run : PhaseRunId) (s : SpecId) (t : Option TaskId) (phase provider : String)
    (iteration : ℕ) (now : ℕ) where
  Moves-start_phase_run : Moves (start_phase_run run s t phase provider iteration now)
  unfolding start_phase_run PhaseRuns.insert_start
  Moves-start_phase_run =
      Moves-bind _ _ (Moves-convert _ (Leaves-fetch_spec s))
        λ spec. Moves-convert _ (record { same = λ db. ground arith })

Moves-end_phase_run :
    (run : PhaseRunId) (v : WorkerVerdict) (tokens_in tokens_out now : ℕ)
    → Moves (end_phase_run run v tokens_in tokens_out now)
unfolding end_phase_run PhaseRuns.update_end
Moves-end_phase_run run v tokens_in tokens_out now =
    Moves-convert _ (record { same = λ db. ground arith })

Moves-insert_decision : (d : DecisionRecord) → Moves (convert persist_failed (Decisions.insert d))
unfolding Decisions.insert
Moves-insert_decision d = Moves-convert _ (record { same = λ db. ground arith })

Moves-plain :
    (t : TaskId) (to : TaskState) (now : ℕ)
    → Fits to none none
    → Moves (transition_task t to none none now)
Moves-plain t to now h = Moves-transition_task t to none none now fits
  where
    fits : FitsCall t to none none
    fits c e = unfold cancellation_of in elim (Option-cases c) [ inl n ↦ rw n h | inr (x, p) ↦ cc ]

block_fits : (t : TaskId) (r : BlockedReason) → FitsCall t TaskState.blocked none (some r)
unfolding cancellation_of
block_fits t r none e = tt
block_fits t r (some c) e = cc

module _ {Json : Type 0} where
  pub Moves-persist : (e : BoiEvent Json) (now : ℕ) → Moves (persist e now)
  unfolding persist
  Moves-persist (task_started _ t) now = Moves-plain t TaskState.active now tt
  Moves-persist (task_blocked _ t r) now = Moves-transition_task t _ _ _ now (block_fits t r)
  Moves-persist (task_unblocked _ t) now = Moves-plain t TaskState.active now tt
  Moves-persist (task_passed _ t _) now = Moves-plain t TaskState.passing now tt
  Moves-persist (task_canceled _ t r) now = Moves-cancel t r now
  Moves-persist (spec_started s) now = Moves-transition_spec s _ _ now
  Moves-persist (spec_completed s) now = Moves-transition_spec s _ _ now
  Moves-persist (spec_failed s r) now = Moves-transition_spec s _ _ now
  Moves-persist (spec_canceled s r) now = Moves-transition_spec s _ _ now
  Moves-persist (phase_started run s t phase provider model iteration) now =
      Moves-start_phase_run run s t phase provider iteration now
  Moves-persist (phase_completed run s t phase v tokens_in tokens_out ms) now =
      Moves-end_phase_run run v tokens_in tokens_out now
  Moves-persist (decision_made d) now = Moves-insert_decision d
  Moves-persist _ now = Moves-pure

  pub Moves-emit : (bus : EventBus Json) (e : BoiEvent Json) (now : ℕ) → Moves (emit bus e now)
  unfolding emit
  Moves-emit bus e now = Moves-bind (persist e now) _ (Moves-persist e now) (λ _. Moves-pure)

  -- Emissions one after another, each at its instant, whatever each one answers.
  unfoldable pub emit_all : EventBus Json → List (BoiEvent Json × ℕ) → Db → Db
  unfolding emit
  emit_all bus [] db = db
  emit_all bus ((e, now) ∷ es) db = emit_all bus es (emit bus e now db).1

  -- Whatever events are emitted, in whatever order and whether each is accepted or refused, the
  -- table of tasks changes only by single writes of a row along an edge that `check_task` allows
  -- from the state which the row then has, with the reasons that fit the new state.
  pub emit_all-TaskSteps :
      (bus : EventBus Json) (es : List (BoiEvent Json × ℕ)) (db : Db)
      → TaskSteps db.task_runtime (emit_all bus es db).task_runtime
  unfolding emit_all
  emit_all-TaskSteps bus [] db = done
  emit_all-TaskSteps bus ((e, now) ∷ es) db =
      TaskSteps-trans ((Moves-emit bus e now).run db)
        (emit_all-TaskSteps bus es (emit bus e now db).1)
