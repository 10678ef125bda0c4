-- ===== src/Contracts/Event.antt =====
-- EventRecord.
use goblin_king.Base.{ℕ, String, Option}
use goblin_king.Contracts.Documents.{Fields}
use goblin_king.Contracts.Status.{EventSource}

pub record EventRecord : Type 0 where
  pub id : String
  pub sequence : ℕ
  pub created_at : ℕ
  pub event_type : String
  pub source : EventSource
  pub project_id : Option String
  pub job_id : Option String
  pub run_id : Option String
  pub fanout_id : Option String
  pub schedule_id : Option String
  pub worker_id : Option String
  pub scheduler_id : Option String
  pub payload : Fields
