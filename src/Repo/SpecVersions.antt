-- ===== src/Repo/SpecVersions.antt =====
-- src/repo/spec_versions.rs: the append-only snapshots of a spec. The columns `trigger_meta` and
-- `created_at` are not kept in the store.
pub mod ReadBack
use boi.Prelude.{
  ℕ, [], ◌∷◌, ◌++◌, Option, none, some, String, Result, ok, err, find, contains, concat,
  if◌then◌else◌,
}
use boi.Types.Ids.{SpecId}
use boi.Types.Context.{Snapshot}
use boi.Repo.Db.{
  RepoError, Repo, duplicate, not_found, sqlx, VersionTrigger, SpecVersionRow, has_version,
  is_version,
}

abbrev pub snapshot_version : ℕ
snapshot_version = 1

abbrev pub or_insert : Option ℕ → ℕ → Option ℕ
or_insert none v = some v
or_insert (some w) v = some w

-- `map.entry("snapshot_v").or_insert_with(..)`
abbrev pub stamped : Snapshot → Snapshot
stamped snapshot = record snapshot { snapshot_v = or_insert snapshot.snapshot_v snapshot_version }

abbrev pub version_row : SpecId → ℕ → Snapshot → VersionTrigger → SpecVersionRow
version_row spec_id version snapshot trigger = record {
  spec_id = spec_id;
  version = version;
  snapshot = stamped snapshot;
  trigger = trigger;
}

-- The number of the version is left out of the two messages.
unfoldable pub append_version : SpecId → ℕ → Snapshot → VersionTrigger → Repo (Unit {0})
append_version spec_id version snapshot trigger db =
    if has_version spec_id version db
    then (err (duplicate (concat ("spec " ∷ spec_id ∷ " version already exists" ∷ []))), db)
    else if contains db.specs spec_id
    then (
      ok tt,
      record db {
        spec_versions = db.spec_versions ++ version_row spec_id version snapshot trigger ∷ [];
      },
    )
    else (err sqlx, db)

abbrev pub snapshot_or : Option SpecVersionRow → String → Result RepoError Snapshot
snapshot_or (some row) missing = ok row.snapshot
snapshot_or none missing = err (not_found missing)

unfoldable pub fetch_snapshot : SpecId → ℕ → Repo Snapshot
fetch_snapshot spec_id version db = (
  snapshot_or (find (is_version spec_id version) db.spec_versions)
      (concat ("spec " ∷ spec_id ∷ " version" ∷ [])),
  db,
)
