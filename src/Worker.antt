-- ===== src/Worker.antt =====
-- The background workers of internal/worker: the queue that collects items for them, and the task
-- that runs one.
pub mod Queue
pub mod Kept
pub mod Task
pub mod Flags
pub mod Roster
pub mod Turns
pub mod Owners
pub mod Settled
pub mod Waits
pub mod TurnExamples
pub mod Runs
pub mod Examples
