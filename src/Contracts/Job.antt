-- ===== src/Contracts/Job.antt =====
-- JobRecord, FanoutRecord and ScheduleRecord.
use goblin_king.Base.{ℕ, String, Option, Bool}
use goblin_king.Base.Int.{ℤ}
use goblin_king.Contracts.Documents.{Fields}
use goblin_king.Contracts.Status.{JobStatus}

-- Formatted messages keep the values that the f-string inserts.
pub data Message : Type 0 where
  text : String → Message
  deferred_project : (active max_project_running : ℕ) → Message
  deferred_goblin : (active max_running : ℕ) → Message
  exceeded_timeout : (timeout_seconds : Option ℕ) → Message
  boundary_failure : (error : String) → Message
  validation_failure : (error : String) → Message

pub record JobRecord : Type 0 where
  pub id : String
  pub kind : String
  pub input : Fields
  pub created_at : ℕ
  pub created_by : String
  pub correlation_id : Option String
  pub project_id : Option String
  pub fanout_id : Option String
  pub metadata : Fields
  pub status : JobStatus
  pub priority : ℤ
  pub schedule_id : Option String
  pub due_at : Option ℕ
  pub lease_owner : Option String
  pub leased_until : Option ℕ
  pub attempt_count : ℕ
  pub max_retries : ℕ
  pub timeout_seconds : Option ℕ
  pub last_error : Option Message

pub record FanoutRecord : Type 0 where
  pub id : String
  pub created_at : ℕ
  pub created_by : String
  pub project_id : Option String
  pub correlation_id : Option String
  pub description : Option String

pub record ScheduleRecord : Type 0 where
  pub id : String
  pub kind : String
  pub project_id : Option String
  pub input : Fields
  pub cron : String
  pub timezone : String
  pub enabled : Bool
  pub priority : ℤ
  pub created_at : ℕ
  pub next_run_at : ℕ
  pub last_materialized_at : Option ℕ
  pub max_retries : ℕ
  pub timeout_seconds : Option ℕ
