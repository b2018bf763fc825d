-- ===== src/Scheduler.antt =====
-- src/scheduler: when a reconciliation runs, and what is concluded from its results.
pub mod Types
pub mod Results
pub mod Cycle
pub mod Machine
