-- ===== src/Breaker.antt =====
-- plugins/fusion/scripts/breaker-check.mjs: which lanes failed lately and are advised against.
pub mod Kinds
pub mod Records
pub mod Latest
pub mod Standing
pub mod Window
pub mod Verdict
pub mod Sorted
pub mod Advice
pub mod Report
pub mod Dedupe
mod Tests
