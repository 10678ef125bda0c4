-- ===== src/Store.antt =====
-- The SQLite store (store.py, store_run_lifecycle.py): the tables that jobs, runs, schedules,
-- fanouts and events live in, and one function per method. A method is one transaction; a raised
-- exception rolls it back, so a failing method returns no new store.
mod State
pub mod Jobs
pub mod Runs
pub mod Events
pub mod Schedules
pub mod Protocol
pub use State.*
