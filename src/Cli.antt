-- ===== src/Cli.antt =====
-- The `cli` layer of the crate: what `boi dispatch` builds.
pub mod Dispatch
