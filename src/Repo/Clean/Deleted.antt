-- ===== src/Repo/Clean/Deleted.antt =====
-- src/repo/clean.rs: `clean_spec` as a whole.
use boi.Prelude.{String, ok, err, ◌≡◌, ◌⊎◌, inl, inr, refl, Option-cases, Result-cases, find}
use boi.Types.Ids.{SpecId}
use boi.Repo.Db.{spec_not_terminal, not_found, Db, RepoError, SpecRuntimeRow}
use boi.Types.SpecStatus
use boi.Types.SpecStatus.{SpecStatus}
use boi.Repo.SpecRuntime.{has_id, fetch}
use Prim.Native.String.{◌++◌ as text_append}
use boi.Repo.Clean.{clean_spec_cascade_inner, clean_spec_forced, guarded, clean_spec}
use boi.Repo.Clean.Cleaned.{Others, Gone, Keyed, cascade-Step}

-- A status that a spec ends in.
abbrev pub Ended : SpecStatus → Type 0
Ended status =
    (status ≡ SpecStatus.completed)
    ⊎ ((status ≡ SpecStatus.failed) ⊎ (status ≡ SpecStatus.canceled))

abbrev pub Deleted : SpecId → Db → Db → Type 0
Deleted s db after = Others s db after × Gone s after

module _ (s : SpecId) (db : Db) (keyed : Keyed db) where
  forced_cases :
      ((e : RepoError) × (clean_spec_forced s db ≡ (err e, db)))
      ⊎ ((after : Db) × (clean_spec_forced s db ≡ (ok tt, after)) × Deleted s db after)
  unfolding clean_spec_forced
  forced_cases =
      let cascade = cascade-Step s db keyed in
      elim (Result-cases (clean_spec_cascade_inner s db).0) [
        | inl (tt, e) ↦
            inr ((clean_spec_cascade_inner s db).1, rw e, (cascade.others, cascade.ends e))
        | inr (x, e) ↦ inl (x, rw e)
      ]

  ended :
      {status : SpecStatus}
      → Ended status
      → ((e : RepoError) × (clean_spec_forced s db ≡ (err e, db)))
        ⊎ ((after : Db) × (clean_spec_forced s db ≡ (ok tt, after))
            × Deleted s db after
            × Ended status)
  ended w = elim forced_cases [
    | inl x ↦ inl x
    | inr (after, e, deleted) ↦ inr (after, e, deleted, w)
  ]

  guarded_cases :
      (text : String) (status : SpecStatus)
      → ((e : RepoError) × (guarded s text status db ≡ (err e, db)))
        ⊎ ((after : Db) × (guarded s text status db ≡ (ok tt, after))
            × Deleted s db after
            × Ended status)
  guarded_cases text SpecStatus.queued = inl (spec_not_terminal s text, refl)
  guarded_cases text SpecStatus.running = inl (spec_not_terminal s text, refl)
  guarded_cases text SpecStatus.completed = ended (inl refl)
  guarded_cases text SpecStatus.failed = ended (inr (inl refl))
  guarded_cases text SpecStatus.canceled = ended (inr (inr refl))

  -- On a store whose decisions have distinct ids, `clean_spec` either is an error that leaves the
  -- store as it was, or it succeeds. It succeeds only for a stored spec whose status is completed,
  -- failed or canceled; then no table has a row of the spec, and every row of another spec is still
  -- there, but for edges of dependencies, of which nothing is said.
  pub clean_spec-Deleted :
      ((e : RepoError) × (clean_spec s db ≡ (err e, db)))
      ⊎ ((after : Db) × (clean_spec s db ≡ (ok tt, after))
          × Deleted s db after
          × ((row : SpecRuntimeRow) × (status : SpecStatus) × (fetch s db ≡ (ok row, db))
              × (SpecStatus.from_str row.status ≡ ok status)
              × Ended status))
  unfolding clean_spec fetch
  clean_spec-Deleted = elim (Option-cases (find (has_id s) db.spec_runtime)) [
    | inl n ↦ inl (not_found (text_append "spec_runtime for " s), rw n)
    | inr (row, f) ↦ elim (Result-cases (SpecStatus.from_str row.status)) [
      | inr (x, p) ↦ inl (not_found "corrupt status", rw (f, p))
      | inl (status, p) ↦ elim (guarded_cases row.status status) [
        | inl (e, q) ↦ inl (e, rw (f, p) q)
        | inr (after, q, deleted, ended) ↦
            inr (after, rw (f, p) q, deleted, (row, status, rw f, p, ended))
      ]
    ]
  ]
