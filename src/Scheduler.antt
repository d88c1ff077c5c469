-- ===== src/Scheduler.antt =====
-- scheduler/: the schedule store, the runner, and the qualification gate.
pub mod Tables
pub mod Runs
pub mod Waits
pub mod Config
pub mod Lock
pub mod Runner
pub mod Qualification
pub mod Trace
