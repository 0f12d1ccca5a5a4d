-- ===== src/Repo/Clean/Cleaned.antt =====
-- src/repo/clean.rs: what the deletion of a spec leaves.
use boi.Prelude.{
  String, List, [], ◌∷◌, false, not, ◌||◌, Result, ok, err, ◌≡◌, ◌≢◌, inl, inr, refl, ap, ◌∙◌,
  arith, ◌==◌, ==-false, eq_iff, any, filter, In, In-filter, In-of_In-map, In-of_In-filter,
  Bool-cases,
}
use boi.Types.Ids.{SpecId, DecisionId}
use boi.Types.Decision.{DecisionRecord}
use boi.Repo.Exec.{continue, ◌>>◌}
use boi.Repo.Db.{Db, Repo, RepoError, TaskRuntimeRow, PhaseRunRow, SpecRuntimeRow, SpecVersionRow}
use boi.Repo.Clean.{
  refers, refers_in, runs_of, task_in_use, delete_decision, delete_decisions, decisions_of,
  delete_phase_runs, delete_task_deps, delete_task_runtime, delete_spec_runtime,
  delete_spec_versions, still_there, delete_specs, clean_spec_cascade_inner,
}

-- Every row of another spec is still there.
pub record Others (s : SpecId) (before after : Db) : Type 0 where
  pub decisions :
      (d : DecisionRecord) → In d before.decisions → d.spec_id ≢ s → In d after.decisions
  pub phase_runs :
      (r : PhaseRunRow) → In r before.phase_runs → r.spec_id ≢ s → In r after.phase_runs
  pub tasks :
      (r : TaskRuntimeRow) → In r before.task_runtime → r.spec_id ≢ s → In r after.task_runtime
  pub spec_runtime :
      (r : SpecRuntimeRow) → In r before.spec_runtime → r.spec_id ≢ s → In r after.spec_runtime
  pub versions :
      (r : SpecVersionRow) → In r before.spec_versions → r.spec_id ≢ s → In r after.spec_versions
  pub specs : (x : SpecId) → In x before.specs → x ≢ s → In x after.specs

Others-refl : (s : SpecId) (db : Db) → Others s db db
Others-refl s db = record {
  decisions = λ d i n. i;
  phase_runs = λ r i n. i;
  tasks = λ r i n. i;
  spec_runtime = λ r i n. i;
  versions = λ r i n. i;
  specs = λ x i n. i;
}

Others-trans : (s : SpecId) (a b c : Db) → Others s a b → Others s b c → Others s a c
Others-trans s a b c p q = record {
  decisions = λ d i n. q.decisions d (p.decisions d i n) n;
  phase_runs = λ r i n. q.phase_runs r (p.phase_runs r i n) n;
  tasks = λ r i n. q.tasks r (p.tasks r i n) n;
  spec_runtime = λ r i n. q.spec_runtime r (p.spec_runtime r i n) n;
  versions = λ r i n. q.versions r (p.versions r i n) n;
  specs = λ x i n. q.specs x (p.specs x i n) n;
}

-- No table has a row of the spec.
pub record Gone (s : SpecId) (db : Db) : Type 0 where
  pub decisions : any (λ (d : DecisionRecord). d.spec_id == s) db.decisions ≡ false
  pub phase_runs : any (λ (r : PhaseRunRow). r.spec_id == s) db.phase_runs ≡ false
  pub tasks : any (λ (r : TaskRuntimeRow). r.spec_id == s) db.task_runtime ≡ false
  pub spec_runtime : any (λ (r : SpecRuntimeRow). r.spec_id == s) db.spec_runtime ≡ false
  pub versions : any (λ (r : SpecVersionRow). r.spec_id == s) db.spec_versions ≡ false
  pub specs : ¬ In s db.specs

-- What an action does to the other specs, and what holds once it has succeeded.
pub record Step (s : SpecId) (P : Db → Type 0) (m : Repo (Unit {0})) (db : Db) : Type 0 where
  pub others : Others s db (m db).1
  pub ends : (m db).0 ≡ ok tt → P (m db).1

kept_filter :
    {A : Type 0} (key : A → String) (s : SpecId) (a : A) (xs : List A)
    → In a xs
    → key a ≢ s
    → In a (filter (λ r. not (key r == s)) xs)
kept_filter key s a xs i n = In-filter (λ r. not (key r == s)) a xs i (rw (==-false (key a) s n))

-- The primary key of `decisions`.
abbrev pub Keyed : Db → Type 0
Keyed db = (d e : DecisionRecord) → In d db.decisions → In e db.decisions → d.id ≡ e.id → d ≡ e

-- The first action may end in anything.
continue-Step :
    {P : Db → Type 0} (s : SpecId) (r : Result RepoError (Unit {0})) (n : Repo (Unit {0})) (db : Db)
    → ((db : Db) → Step s P n db)
    → Others s db (continue r (λ _. n) db).1
      × ((continue r (λ _. n) db).0 ≡ ok tt → P (continue r (λ _. n) db).1)
continue-Step s (ok u) n db h = ((h db).others, (h db).ends)
continue-Step s (err e) n db h = (Others-refl s db, λ w. absurd (cc w))

then-Step :
    {P : Db → Type 0} (s : SpecId) (m n : Repo (Unit {0})) (db : Db)
    → Others s db (m db).1
    → ((db : Db) → Step s P n db)
    → Step s P (m >> n) db
then-Step s m n db o h =
    let (others, ends) = continue-Step s (m db).0 n (m db).1 h in
    record { others = Others-trans s db (m db).1 _ o others; ends = ends }

not_in_filter : (s : SpecId) (xs : List SpecId) → ¬ In s (filter (λ x. not (x == s)) xs)
not_in_filter s xs i =
    let (_, h) = In-of_In-filter (λ x. not (x == s)) s xs i in cc (rw ((eq_iff s s).1 refl) at h)

module _ (s : SpecId) where
  specs-Step : (db : Db) → Step s (Gone s) (delete_specs s) db
  unfolding delete_specs
  specs-Step db = elim (Bool-cases (still_there s db)) [
    | inl y ↦ record { others = rw y (Others-refl s db); ends = λ h. absurd (cc (y, h)) }
    | inr f ↦ record {
      others = rw f (record {
        decisions = λ d i n. i;
        phase_runs = λ r i n. i;
        tasks = λ r i n. i;
        spec_runtime = λ r i n. i;
        versions = λ r i n. i;
        specs = λ x i n. kept_filter (λ y. y) s x db.specs i n;
      });
      ends = λ _. rw f (record {
        decisions = ground (arith, f);
        phase_runs = ground (arith, f);
        tasks = ground (arith, f);
        spec_runtime = ground (arith, f);
        versions = ground (arith, f);
        specs = not_in_filter s db.specs;
      });
    }
  ]

  versions_step : (db : Db) → Others s db (delete_spec_versions s db).1
  unfolding delete_spec_versions
  versions_step db =
      elim (Bool-cases (
        any (λ (r : PhaseRunRow). r.spec_id == s) db.phase_runs
        || any (λ (r : SpecRuntimeRow). r.spec_id == s) db.spec_runtime)) [
          | inl y ↦ rw y (Others-refl s db)
          | inr f ↦ rw f (record {
            decisions = λ d i n. i;
            phase_runs = λ r i n. i;
            tasks = λ r i n. i;
            spec_runtime = λ r i n. i;
            versions =
                λ r i n. kept_filter (λ (r : SpecVersionRow). r.spec_id) s r db.spec_versions i n;
            specs = λ x i n. i;
          })
        ]

  spec_runtime_step : (db : Db) → Others s db (delete_spec_runtime s db).1
  unfolding delete_spec_runtime
  spec_runtime_step db = record {
    decisions = λ d i n. i;
    phase_runs = λ r i n. i;
    tasks = λ r i n. i;
    spec_runtime = λ r i n. kept_filter (λ (r : SpecRuntimeRow). r.spec_id) s r db.spec_runtime i n;
    versions = λ r i n. i;
    specs = λ x i n. i;
  }

  tasks_step : (db : Db) → Others s db (delete_task_runtime s db).1
  unfolding delete_task_runtime
  tasks_step db = elim (Bool-cases (task_in_use s db)) [
    | inl y ↦ rw y (Others-refl s db)
    | inr f ↦ rw f (record {
      decisions = λ d i n. i;
      phase_runs = λ r i n. i;
      tasks = λ r i n. kept_filter (λ (r : TaskRuntimeRow). r.spec_id) s r db.task_runtime i n;
      spec_runtime = λ r i n. i;
      versions = λ r i n. i;
      specs = λ x i n. i;
    })
  ]

  deps_step : (db : Db) → Others s db (delete_task_deps s db).1
  unfolding delete_task_deps
  deps_step db = record {
    decisions = λ d i n. i;
    phase_runs = λ r i n. i;
    tasks = λ r i n. i;
    spec_runtime = λ r i n. i;
    versions = λ r i n. i;
    specs = λ x i n. i;
  }

  runs_step : (db : Db) → Others s db (delete_phase_runs s db).1
  unfolding delete_phase_runs
  runs_step db =
      elim (Bool-cases
        (any (λ (d : DecisionRecord). refers_in d.phase_run_id (runs_of s db)) db.decisions)) [
          | inl y ↦ rw y (Others-refl s db)
          | inr f ↦ rw f (record {
            decisions = λ d i n. i;
            phase_runs =
                λ r i n. kept_filter (λ (r : PhaseRunRow). r.spec_id) s r db.phase_runs i n;
            tasks = λ r i n. i;
            spec_runtime = λ r i n. i;
            versions = λ r i n. i;
            specs = λ x i n. i;
          })
        ]

  -- The ids are those of decisions of the spec alone.
  abbrev Own : List DecisionId → Db → Type 0
  Own ids db =
      (id : DecisionId)
      → In id ids
      → (d : DecisionRecord) → In d db.decisions
      → d.id ≡ id
      → d.spec_id ≡ s

  decisions_step :
      (ids : List DecisionId) (db : Db) → Own ids db → Others s db (delete_decisions ids db).1
  unfolding delete_decisions
  decisions_step [] db own = Others-refl s db
  decisions_step (id ∷ ids) db own =
      elim (Bool-cases (any (λ (d : DecisionRecord). refers d.supersedes id) db.decisions)) [
        | inl y ↦ unfold delete_decision in rw y (Others-refl s db)
        | inr f ↦
            let left : Db = record db { decisions = filter (λ d. not (d.id == id)) db.decisions } in
            let one : Others s db left = record {
              decisions = λ d i n.
                  kept_filter (λ (d : DecisionRecord). d.id) id d db.decisions i
                    (λ e. n (own id (inl refl) d i e));
              phase_runs = λ r i n. i;
              tasks = λ r i n. i;
              spec_runtime = λ r i n. i;
              versions = λ r i n. i;
              specs = λ x i n. i;
            } in
            let rest = decisions_step ids left (λ x i d j e.
              own x (inr i) d (In-of_In-filter (λ d. not (d.id == id)) d db.decisions j).0 e) in
            unfold delete_decision in rw f (Others-trans s db left _ one rest)
      ]

  Keyed-Own : (db : Db) → Keyed db → Own (decisions_of s db) db
  Keyed-Own db keyed id i d j e =
      let (x, k, p) =
        In-of_In-map (λ (d : DecisionRecord). d.id) id (filter (λ d. d.spec_id == s) db.decisions)
          i in
      let (there, q) = In-of_In-filter (λ (d : DecisionRecord). d.spec_id == s) x db.decisions k in
      ap (λ (d : DecisionRecord). d.spec_id) (keyed d x j there (e ∙ p)) ∙ (eq_iff x.spec_id s).0 q

  pub cascade-Step : (db : Db) → Keyed db → Step s (Gone s) (clean_spec_cascade_inner s) db
  unfolding clean_spec_cascade_inner
  cascade-Step db keyed =
      let all =
        then-Step s (delete_decisions (decisions_of s db)) _ db
          (decisions_step (decisions_of s db) db (Keyed-Own db keyed))
          (λ db. then-Step s (delete_phase_runs s) _ db (runs_step db) (λ db.
            then-Step s (delete_task_deps s) _ db (deps_step db) (λ db.
              then-Step s (delete_task_runtime s) _ db (tasks_step db) (λ db.
                then-Step s (delete_spec_runtime s) _ db (spec_runtime_step db) (λ db.
                  then-Step s (delete_spec_versions s) (delete_specs s) db (versions_step db)
                    specs-Step))))) in
      record { others = all.others; ends = all.ends }
