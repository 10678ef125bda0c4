-- ===== src/Contracts/Status.antt =====
-- The status literals of contracts.py, and the status sets of the modules that use them.
use goblin_king.Base.{Bool, true, false, String}

pub data JobStatus : Type 0 where
  queued leased running completed failed retrying timed_out cancelled : JobStatus

pub data RunStatus : Type 0 where
  running completed failed timed_out : RunStatus

pub data ResultStatus : Type 0 where
  success failed : ResultStatus

pub data RepositoryStatus : Type 0 where
  draft validated pending_review approved published rejected retired : RepositoryStatus

pub data RepositoryType : Type 0 where
  notebook_function notebook_service : RepositoryType

pub data EventSource : Type 0 where
  api scheduler runtime worker cli : EventSource

-- `status in ["completed", "failed", "timed_out", "cancelled"]`
abbrev pub is_terminal : JobStatus → Bool
is_terminal JobStatus.completed = true
is_terminal JobStatus.failed = true
is_terminal JobStatus.timed_out = true
is_terminal JobStatus.cancelled = true
is_terminal _ = false

-- `status in ["leased", "running"]`
abbrev pub is_held : JobStatus → Bool
is_held JobStatus.leased = true
is_held JobStatus.running = true
is_held _ = false

-- `status in ["queued", "retrying"]`
abbrev pub is_waiting : JobStatus → Bool
is_waiting JobStatus.queued = true
is_waiting JobStatus.retrying = true
is_waiting _ = false

-- ACTIVE_STATUSES of fanout.py
abbrev pub is_active : JobStatus → Bool
is_active JobStatus.leased = true
is_active JobStatus.running = true
is_active JobStatus.retrying = true
is_active _ = false

abbrev pub is_leased : JobStatus → Bool
is_leased JobStatus.leased = true
is_leased _ = false

abbrev pub is_running : JobStatus → Bool
is_running JobStatus.running = true
is_running _ = false

abbrev pub is_completed : JobStatus → Bool
is_completed JobStatus.completed = true
is_completed _ = false

abbrev pub is_cancelled : JobStatus → Bool
is_cancelled JobStatus.cancelled = true
is_cancelled _ = false

-- TERMINAL_RUN_STATUSES of store_run_lifecycle.py
abbrev pub is_finished : RunStatus → Bool
is_finished RunStatus.running = false
is_finished _ = true

-- A job takes over the status of its run.
abbrev pub job_status : RunStatus → JobStatus
job_status RunStatus.running = JobStatus.running
job_status RunStatus.completed = JobStatus.completed
job_status RunStatus.failed = JobStatus.failed
job_status RunStatus.timed_out = JobStatus.timed_out

-- The text of a status, as it stands in its column.
unfoldable pub status_text : JobStatus → String
status_text JobStatus.queued = "queued"
status_text JobStatus.leased = "leased"
status_text JobStatus.running = "running"
status_text JobStatus.completed = "completed"
status_text JobStatus.failed = "failed"
status_text JobStatus.retrying = "retrying"
status_text JobStatus.timed_out = "timed_out"
status_text JobStatus.cancelled = "cancelled"

unfoldable pub run_status_text : RunStatus → String
run_status_text RunStatus.running = "running"
run_status_text RunStatus.completed = "completed"
run_status_text RunStatus.failed = "failed"
run_status_text RunStatus.timed_out = "timed_out"
