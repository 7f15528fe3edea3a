-- ===== src/Macos/ContentSnapshot.antt =====
-- crates/zanei-macos/src/content_snapshot: when a snapshot of a window's content is taken.
pub mod Trigger
pub mod Scheduler
pub mod Due
pub mod Sound
pub mod Queue
pub mod Invariant
pub mod Runs
pub mod Deadlines
pub mod Draining
pub mod State
pub mod Saves
pub mod Intervals
