-- ===== src/Lib.antt =====
-- Goblin King runs jobs ("goblins") in containers. Callers submit jobs to a SQLite store; schedulers
-- claim due jobs under a lease, run them, and finalise each attempt; the store records events, which
-- are delivered to a Redis stream; fanouts group jobs; a catalog of notebooks is reviewed before it is
-- published. This library models the Python code under src/goblin_king that makes these decisions.
--
-- Files and code:
--   Base (Tests, Lists, Fallible, Int): shared names, Boolean tests on numbers, lists over native
--   numbers, a result type for exceptions, and integers.
--   Table (Laws, Sorted, Keyed, Search): a database table as the list of its rows in storage order,
--   and the SQL statements that the store issues, with the laws of a lookup by key or by condition.
--   Contracts (Documents, Lookup, Status, Job, Run, Event, Activity, Catalog): the records and status
--   literals of contracts.py. A time is a number of microseconds; a number in JSON is an integer.
--   CausalTime (Order): causal_time.py.
--   Store: store.py and store_run_lifecycle.py. Store/State has the tables of store_schema.py;
--   Store/Jobs the job queue (save_job, claim_due_jobs, try_renew_job_lease, try_mark_job_running,
--   finish_job, try_cancel_job and the counts and lists); Store/Runs the run lifecycle (persist_run,
--   start_run, finalize_attempt); Store/Events the durable events (persist_event); Store/Schedules
--   the rows of schedules and fanouts. Store/Protocol is the life of one job as a step relation, by
--   the moves of the store's guarded transactions; Store/Protocol/History runs sequences of calls, and
--   Store/Protocol/Finished follows a run through them.
--   Catalog: the repository methods of store.py. Catalog/State has the tables, Catalog/Transition
--   REPOSITORY_STATUS_TRANSITIONS, Catalog/Entries the entries, Catalog/Review the columns of a review
--   step, Catalog/Versions the numbered source versions; Catalog/Calls runs sequences of calls, and
--   Catalog/Changes what each does to the versions; Catalog/Followed is about a
--   review step's entry, Catalog/Removal about deletions.
--   Fanout (Outcome, Totals, Order): the read model of fanout.py.
--   Delivery (Pending, Batches, Rows, Stored): event_delivery.py.
--   RateLimit (Key, Window): increment_rate_limit of store.py and check_rate_limit of auth.py.
--   Registry: the index and the lookups of registry.py, and goblin_job_metadata of metadata.py.
--   Policies: resource_policies.py. Policies/Quantity reads byte quantities, Policies/Merge is
--   _deep_merge, Policies/Ceilings and Policies/Effective are about the effective policy.
--   Scheduler: scheduler.py and scheduler_failures.py, with emit, heartbeat (events.py) and audit
--   (auth.py) as far as they store rows. Scheduler/Action is the state and exception monad that they
--   are written in, Scheduler/Environment what a scheduler is given; Scheduler/Materialize, Claims,
--   Attempts and Execute, Failures and Pass are the steps of run_once. SameJobs, Refine, Limits, Retry
--   and Terminal are about them. Scheduler/Requests has create_fanout and retry_job of fanout.py.
--   Auth (Tokens, Access, Revoked): authentication and access tests of auth.py; Auth/Revoked runs
--   sequences of token calls.
--   RunEvents (Ascending, Decoded, Page): run_events.py, the reader of a run's stream;
--   RunEvents/Publisher (Configured, Returned, Readback, Sent, Published): RunEventPublisher, what it
--   sends, and a read after it.
--   Tests: sample data, runs of the model, and the theorems at concrete inputs.
--
-- A method is a function from the store's state to a result: the new state and the value that it
-- returns, or the exception that it raises, which rolls the transaction back. Methods under BEGIN
-- IMMEDIATE are atomic, so concurrent schedulers are sequences of such calls. Primary keys are kept by
-- the insertion; a theorem that needs distinct keys of older rows says so.
--
-- The loop of deliver_through runs on fuel: the target sequence and one more. Each batch advances the
-- cursor, which stays below the target until the last one, so the fuel is enough.
-- All other loops are structural.
--
-- Redis and the JSON codec of events are parameters of Delivery, with their laws in Delivery/Rows, and
-- of RunEvents, with the laws of a server in RunEvents/Publisher/Sent; a codec may raise. In Delivery, a
-- stream's trimming (MAXLEN) is not modelled, and the id of a message is its milliseconds.
--
-- A scheduler's action keeps what it committed before it raised. Its ids and times are drawn from
-- supplies; the runtimes, the validation gate, croniter, pydantic's dump and validation, floats, the
-- conversions of notebooks, and the decoding of foreign tokens are parameters, with their laws in
-- Scheduler/Refine (IsTame) and Policies/Effective (ReadsNumbers). Lease renewals in threads are calls
-- of the store between those of a pass.
--
-- Not modelled: the validation gate and run_loop of scheduler.py, from_environment of
-- run_events.py, the reads of the Redis stream in events.py, worker validation records, audits,
-- deployments, services and notebooks in the store, migrations, the runtimes and Kubernetes
-- support, the HTTP API, the command line, the user interfaces and charts.
pub mod Base
pub mod Table
pub mod Contracts
pub mod Fanout
pub mod Delivery
pub mod RateLimit
pub mod Policies
pub mod Registry
pub mod Auth
pub mod Scheduler
pub mod CausalTime
pub mod Store
pub mod Catalog
mod Tests
pub mod RunEvents
