-- ===== src/Contracts/Activity.antt =====
-- HeartbeatRecord and AuditLogRecord.
use goblin_king.Base.{ℕ, String, Option}
use goblin_king.Contracts.Documents.{Fields}

-- `HeartbeatOwnerType` of contracts.py
pub data HeartbeatOwner : Type 0 where
  scheduler worker : HeartbeatOwner

pub record HeartbeatRecord : Type 0 where
  pub owner_id : String
  pub owner_type : HeartbeatOwner
  pub status : String
  pub last_seen_at : ℕ
  pub job_id : Option String
  pub run_id : Option String
  pub payload : Fields

pub record AuditLogRecord : Type 0 where
  pub id : String
  pub created_at : ℕ
  pub action : String
  pub outcome : String
  pub user_id : Option String
  pub token_id : Option String
  pub project_id : Option String
  pub resource_type : Option String
  pub resource_id : Option String
  pub detail : Fields
