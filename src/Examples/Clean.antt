-- ===== src/Examples/Clean.antt =====
-- The deletion of a spec that has ended from a store with another spec.
use boi.Prelude.{[], ◌∷◌, Option, none, some, ok, err, ◌≡◌, ◌⊎◌, refl, sym, ◌∙◌, inl, inr}
use boi.Types.Ids.{DecisionId}
use boi.Types.SpecStatus
use boi.Types.SpecStatus.{SpecStatus}
use boi.Types.Decision.{DecisionRecord, authored}
use boi.Repo.Db.{Db, RepoError, sqlx, SpecRuntimeRow}
use boi.Repo.SpecRuntime.{fetch}
use boi.Repo.Clean.{clean_spec}
use boi.Repo.Clean.Cleaned.{Keyed}
use boi.Repo.Clean.Deleted.{Deleted, Ended, clean_spec-Deleted}
use boi.Examples.Store.{spec_a, store, spec_row, version}

abbrev decision : DecisionId → Option DecisionId → DecisionRecord
decision id supersedes = record {
  id = id;
  spec_id = spec_a;
  phase_run_id = none;
  origin = authored;
  title = "store";
  summary = "";
  rationale = "";
  alternatives = [];
  supersedes = supersedes;
  created_at = 1;
}

abbrev ended_store : Db
ended_store = record store {
  spec_runtime = spec_row spec_a SpecStatus.completed ∷ spec_row "S0000002b" SpecStatus.queued ∷ [];
  decisions = decision "D0000001a" none ∷ [];
}

ended_store-Keyed : Keyed ended_store
ended_store-Keyed d e (inl p) (inl q) h = p ∙ sym q
ended_store-Keyed d e (inl p) (inr j) h = elim j [ ]
ended_store-Keyed d e (inr i) j h = elim i [ ]

clean_spec-Deleted_example :
    ((e : RepoError) × (clean_spec spec_a ended_store ≡ (err e, ended_store)))
    ⊎ ((after : Db) × (clean_spec spec_a ended_store ≡ (ok tt, after))
        × Deleted spec_a ended_store after
        × ((row : SpecRuntimeRow) × (status : SpecStatus) × (fetch spec_a ended_store
              ≡ (ok row, ended_store))
            × (SpecStatus.from_str row.status ≡ ok status)
            × Ended status))
clean_spec-Deleted_example = clean_spec-Deleted spec_a ended_store ended_store-Keyed

abbrev left_store : Db
left_store = record {
  specs = "S0000002b" ∷ [];
  spec_versions = version "S0000002b" ∷ [];
  spec_runtime = spec_row "S0000002b" SpecStatus.queued ∷ [];
  task_runtime = [];
  task_deps = [];
  phase_runs = [];
  decisions = [];
}

ended_cleaned : clean_spec spec_a ended_store ≡ (ok tt, left_store)
unfolding clean_spec SpecStatus.from_str SpecStatus.as_str fetch
ended_cleaned = refl

-- A decision that a later one of the spec supersedes is refused, and nothing is deleted.
abbrev chain_store : Db
chain_store = record ended_store {
  decisions = decision "D0000001a" none ∷ decision "D0000002a" (some "D0000001a") ∷ [];
}

chain_refused : clean_spec spec_a chain_store ≡ (err sqlx, chain_store)
unfolding clean_spec SpecStatus.from_str SpecStatus.as_str fetch
chain_refused = refl
