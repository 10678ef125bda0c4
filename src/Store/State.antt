-- ===== src/Store/State.antt =====
-- The tables of store_schema.py that the scheduler works on, and the errors of the methods.
use goblin_king.Base.{ℕ, String, List, []}
use goblin_king.Contracts.{
  JobRecord, RunRecord, ScheduleRecord, FanoutRecord, EventRecord, ArtifactRecord, HandoffRecord,
  RunStatus,
}

-- A row of the artifacts table and one of the handoffs table; their own ids are not modelled.
pub record ArtifactRow : Type 0 where
  pub run_id : String
  pub artifact : ArtifactRecord

pub record HandoffRow : Type 0 where
  pub run_id : String
  pub handoff : HandoffRecord

pub record Store : Type 0 where
  pub jobs : List JobRecord
  pub runs : List RunRecord
  pub artifacts : List ArtifactRow
  pub handoffs : List HandoffRow
  pub schedules : List ScheduleRecord
  pub fanouts : List FanoutRecord
  pub events : List EventRecord
  -- the value under the scope "events" in causal_sequences
  pub event_sequence : ℕ

abbrev pub empty_store : Store
empty_store = record {
  jobs = [];
  runs = [];
  artifacts = [];
  handoffs = [];
  schedules = [];
  fanouts = [];
  events = [];
  event_sequence = 0;
}

-- The exceptions that the methods raise: IntegrityError, and each ValueError by its message.
pub data StoreError : Type 0 where
  integrity_error : StoreError
  started_status started_finished started_result started_error : StoreError
  job_not_found : (job_id : String) → StoreError
  cannot_finalize_with : (run_id : String) (status : RunStatus) → StoreError
  cannot_finalize_from : (run_id : String) (status : RunStatus) → StoreError
  cannot_change_lineage : (run_id : String) → StoreError
