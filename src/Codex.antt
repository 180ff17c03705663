-- ===== src/Codex.antt =====
-- plugins/codex/scripts/lib/args.mjs: the arguments of the Codex companion.
pub mod Args
pub mod Refines
pub mod Raw
pub mod RawRefines
pub mod Records
pub mod Jobs
pub mod Finished
pub mod Final
pub mod Finishing
pub mod History
pub mod Quota
mod Tests
