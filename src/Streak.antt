-- ===== src/Streak.antt =====
-- plugins/fusion/scripts/lib/guard/read-streak.mjs: runs of read only turns of the main session.
pub mod Segments
pub mod Commands
pub mod Turns
pub mod Quoting
pub mod Targets
pub mod Steps
pub mod Harmless
pub mod Bursts
pub mod Advisories
mod Tests
