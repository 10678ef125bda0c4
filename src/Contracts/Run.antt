-- ===== src/Contracts/Run.antt =====
-- ArtifactRecord, HandoffRecord, GoblinResult and RunRecord.
use goblin_king.Base.{ℕ, String, Option, List}
use goblin_king.Contracts.Documents.{Fields}
use goblin_king.Contracts.Status.{RunStatus, ResultStatus}
use goblin_king.Contracts.Job.{Message}

pub record ArtifactRecord : Type 0 where
  pub name : String
  pub uri : String
  pub media_type : Option String

pub record HandoffRecord : Type 0 where
  pub kind : String
  pub payload : Fields

pub record GoblinResult : Type 0 where
  pub status : ResultStatus
  pub data_fields : Fields
  pub artifacts : List ArtifactRecord
  pub metrics : Fields
  pub handoff : List HandoffRecord
  pub error : Option Message

pub record RunRecord : Type 0 where
  pub id : String
  pub job_id : String
  pub kind : String
  pub project_id : Option String
  pub attempt : ℕ
  pub status : RunStatus
  pub started_at : ℕ
  pub finished_at : Option ℕ
  pub result : Option GoblinResult
  pub error : Option Message
  pub timeout_seconds : Option ℕ
  pub max_retries : ℕ
  pub leased_until : Option ℕ
  pub resource_policy : Option Fields
