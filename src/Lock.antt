-- ===== src/Lock.antt =====
-- shared/companion/record-lock.mjs: the lock on a record, which companions of different processes take
-- by a symbolic link.
pub mod Identity
pub mod Disk
pub mod Calls
pub mod Claims
pub mod System
pub mod Chain
pub mod Rivals
pub mod Facts
pub mod Frames
pub mod Moves
pub mod Listings
pub mod Invariant
pub mod Exclusion
pub mod Turn
pub mod Schedule
pub mod Alone
pub mod Recovery
pub mod Judgement
mod Tests
