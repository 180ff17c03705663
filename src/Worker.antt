-- ===== src/Worker.antt =====
-- plugins/fusion/scripts/lib: Claude workers and their budgets.
pub mod Agents
pub mod Records
pub mod Budget
pub mod Limits
pub mod Reopen
pub mod Reasons
pub mod Verdicts
pub mod Ids
pub mod Rounds
pub mod Archive
pub mod Settled
pub mod Collected
pub mod Printable
mod Tests
