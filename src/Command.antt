-- ===== src/Command.antt =====
-- plugins/fusion/scripts/lib/verification-command.mjs: is a shell command a verification, and does its
-- exit status show the outcome.
pub mod Segments
pub mod Runners
pub mod Recognize
pub mod Evidence
pub mod Shell
pub mod Status
mod Tests
