-- ===== src/Fanout.antt =====
-- The read model of a fanout batch: its status, its counts and its children (fanout.py).
pub mod Outcome
pub mod Totals
pub mod Order
use goblin_king.Base.{
  ℕ, ◌+◌, String, ◌==◌, Bool, true, false, not, ◌&&◌, Option, none, some, List, [], ◌∷◌, ◌++◌, map,
  length, any, all, Result, ok, raise, ◌>>=◌, if◌then◌else◌,
}
use goblin_king.Contracts.{
  JobRecord, JobStatus, FanoutRecord, RunRecord, is_terminal, is_completed, is_active, status_text,
}
use goblin_king.Store.{Store}
use goblin_king.Store.Jobs.{list_fanout_jobs}
use goblin_king.Store.Runs.{list_job_runs}
use goblin_king.Store.Schedules.{get_fanout, list_fanouts}

pub data FanoutStatus : Type 0 where
  queued running completed failed partial : FanoutStatus

-- `status in {"failed", "timed_out", "cancelled"}`
abbrev pub is_unsuccessful : JobStatus → Bool
is_unsuccessful JobStatus.failed = true
is_unsuccessful JobStatus.timed_out = true
is_unsuccessful JobStatus.cancelled = true
is_unsuccessful _ = false

-- The tests of `derive_fanout_status` after the empty batch, in their order.
unfoldable pub status_of : List JobStatus → FanoutStatus
status_of statuses =
    if all is_completed statuses
    then FanoutStatus.completed
    else if all is_terminal statuses
    then (if any is_completed statuses then FanoutStatus.partial else FanoutStatus.failed)
    else if any is_completed statuses && any is_unsuccessful statuses
    then FanoutStatus.partial
    else if any is_active statuses
    then FanoutStatus.running
    else FanoutStatus.queued

unfoldable pub derive_fanout_status : List JobRecord → FanoutStatus
derive_fanout_status [] = FanoutStatus.queued
derive_fanout_status (job ∷ jobs) = status_of (map (λ j. j.status) (job ∷ jobs))

-- `counts.get(key, 0)` of a dict from texts to numbers
unfoldable pub get_count : String → List (String × ℕ) → ℕ
get_count key [] = 0
get_count key ((k, n) ∷ counts) = if k == key then n else get_count key counts

-- `counts[key] = value`
unfoldable pub set_count : String → ℕ → List (String × ℕ) → List (String × ℕ)
set_count key value [] = (key, value) ∷ []
set_count key value ((k, n) ∷ counts) =
    if k == key then (k, value) ∷ counts else (k, n) ∷ set_count key value counts

-- The loop of `_counts`, with the counts so far.
unfoldable pub count_statuses : List JobRecord → List (String × ℕ) → List (String × ℕ)
count_statuses [] counts = counts
count_statuses (job ∷ jobs) counts =
    let status = status_text job.status in
    count_statuses jobs (set_count status (get_count status counts + 1) counts)

unfoldable pub counts_of : List JobRecord → List (String × ℕ)
counts_of jobs = set_count "total" (length jobs) (count_statuses jobs [])

pub record FanoutDetail : Type 0 where
  pub fanout : FanoutRecord
  pub status : FanoutStatus
  pub counts : List (String × ℕ)
  pub jobs : List JobRecord
  pub runs : List RunRecord

-- `[run for job in jobs for run in store.list_job_runs(job.id)]`
unfoldable pub runs_of : List JobRecord → Store → List RunRecord
runs_of [] store = []
runs_of (job ∷ jobs) store = list_job_runs job.id store ++ runs_of jobs store

-- The KeyError of an unknown fanout.
pub data FanoutError : Type 0 where
  unknown_fanout : (fanout_id : String) → FanoutError

unfoldable pub fanout_detail : Store → (fanout_id : String) → Result FanoutError FanoutDetail
fanout_detail store fanout_id = elim (get_fanout fanout_id store) [
  | none ↦ raise (unknown_fanout fanout_id)
  | some fanout ↦
      let jobs = list_fanout_jobs fanout_id store in
      ok (record {
        fanout = fanout;
        status = derive_fanout_status jobs;
        counts = counts_of jobs;
        jobs = jobs;
        runs = runs_of jobs store;
      })
]

-- `[fanout_detail(store, fanout.id) for fanout in fanouts]`
unfoldable pub details_of : Store → List FanoutRecord → Result FanoutError (List FanoutDetail)
details_of store [] = ok []
details_of store (fanout ∷ fanouts) = do
  detail ← fanout_detail store fanout.id
  rest ← details_of store fanouts
  ok (detail ∷ rest)

unfoldable pub list_fanout_details : Store → Result FanoutError (List FanoutDetail)
list_fanout_details store = details_of store (list_fanouts store)
