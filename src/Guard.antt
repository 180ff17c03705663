-- ===== src/Guard.antt =====
-- plugins/fusion/scripts/lib/guard: the guard of inline writes of the main session.
pub mod Settings
pub mod State
pub mod Names
pub mod Bytes
pub mod Transcript
pub mod Write
pub mod Settle
pub mod Dispatch
pub mod Verify
pub mod Calls
pub mod Hooks
pub mod Limits
pub mod Granted
pub mod Refunds
pub mod Leaves
pub mod Kept
pub mod Budget
pub mod Ledger
pub mod Booked
pub mod Returned
pub mod Refusals
pub mod Launches
mod Tests
pub mod Closed
