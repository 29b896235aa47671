-- ===== src/Scheduler.antt =====
-- services/src/services/scheduler: the queue of future runs, its service, and the backoff.
pub mod Store
pub mod Backoff
pub mod Table
pub mod Service
pub mod Queue
pub mod Claims
pub mod Counts
pub mod Tables
pub mod Samples
