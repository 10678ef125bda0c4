-- ===== src/Scheduler.antt =====
-- The scheduler (scheduler.py, scheduler_failures.py) and the event bus that it reports to (events.py).
pub mod Action
pub mod Environment
pub mod Events
pub mod Materialize
pub mod Claims
pub mod Attempts
pub mod Execute
pub mod Failures
pub mod Pass
pub mod SameJobs
pub mod Refine
pub mod Limits
pub mod Retry
pub mod Terminal
pub mod Requests
