-- ===== src/Repo/SpecVersions/ReadBack.antt =====
-- src/repo/spec_versions.rs: `append_version` and what `fetch_snapshot` reads afterwards.
use boi.Repo.Db.{Db}
