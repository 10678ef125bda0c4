-- ===== src/Scheduler/Events.antt =====
-- The event bus (EventBus of events.py): an event is stored, then mirrored to Redis. The mirror
-- touches none of the tables modelled here and swallows its errors, so only the stored event is left.
use goblin_king.Base.{ℕ, String, ◌==◌, Option, none, some, [], ◌∷◌, ◌++◌, any, if◌then◌else◌}
use goblin_king.CausalTime.{utc, causally_after}
use goblin_king.Contracts.{
  EventRecord, EventSource, HeartbeatRecord, HeartbeatOwner, AuditLogRecord, Fields, JobRecord,
}
use goblin_king.Table.{update_where}
use goblin_king.Store.Events.{persist_event}
use goblin_king.Scheduler.Action.{
  Action, ◌>>=◌, ◌>>◌, done, transact, draw, write_heartbeats, write_audit_logs,
}
use goblin_king.Scheduler.Environment.{Outside}

-- The arguments of `emit`.
pub record Emission : Type 0 where
  pub event_type : String
  pub source : EventSource
  pub payload : Fields
  pub project_id : Option String
  pub job_id : Option String
  pub run_id : Option String
  pub fanout_id : Option String
  pub schedule_id : Option String
  pub worker_id : Option String
  pub scheduler_id : Option String
  pub after : Option ℕ

module _ {N F : Type 0} (outside : Outside N F) where
  -- `causally_after(after) if after is not None else utc_now()`; both read the clock once.
  unfoldable pub event_time : Option ℕ → Action ℕ
  event_time none = draw outside.utc_now
  event_time (some after) = do
    current ← draw outside.utc_now
    done (causally_after (some (utc after) ∷ []) (utc current))

  unfoldable pub emit : Emission → Action EventRecord
  emit emission = do
    id ← draw outside.uuid4
    created_at ← event_time emission.after
    transact (
        persist_event (record {
          id = id;
          sequence = 0;
          created_at = created_at;
          event_type = emission.event_type;
          source = emission.source;
          project_id = emission.project_id;
          job_id = emission.job_id;
          run_id = emission.run_id;
          fanout_id = emission.fanout_id;
          schedule_id = emission.schedule_id;
          worker_id = emission.worker_id;
          scheduler_id = emission.scheduler_id;
          payload = emission.payload;
        }))

-- `upsert_heartbeat`: one row per owner.
unfoldable pub upsert_heartbeat : HeartbeatRecord → Action (Unit {0})
upsert_heartbeat heartbeat = write_heartbeats (λ rows.
    if any (λ row. row.owner_id == heartbeat.owner_id) rows
    then update_where (λ row. row.owner_id == heartbeat.owner_id) (λ _. heartbeat) rows
    else rows ++ heartbeat ∷ [])

module _ {N F : Type 0} (outside : Outside N F) where
  unfoldable pub heartbeat :
      (owner_id : String) (owner_type : HeartbeatOwner) (status : String) (payload : Fields)
      → Action HeartbeatRecord
  heartbeat owner_id owner_type status payload = do
    last_seen_at ← draw outside.utc_now
    let beat : HeartbeatRecord = record {
      owner_id = owner_id;
      owner_type = owner_type;
      status = status;
      last_seen_at = last_seen_at;
      job_id = none;
      run_id = none;
      payload = payload;
    }
    upsert_heartbeat beat
    done beat

  -- `audit` of auth.py without a principal, and `save_audit_log` of its row.
  unfoldable pub audit :
      (action outcome : String) (project_id : Option String) (resource_type resource_id : String)
      (detail : Fields)
      → Action (Unit {0})
  audit action outcome project_id resource_type resource_id detail = do
    id ← draw outside.uuid4
    created_at ← draw outside.utc_now
    let log : AuditLogRecord = record {
      id = id;
      created_at = created_at;
      action = action;
      outcome = outcome;
      user_id = none;
      token_id = none;
      project_id = project_id;
      resource_type = some resource_type;
      resource_id = some resource_id;
      detail = detail;
    }
    write_audit_logs (λ rows. rows ++ log ∷ [])

-- What the scheduler's events say of a job.
abbrev pub job_emission :
    (scheduler_id event_type : String)
    → JobRecord
    → (run_id : Option String) (payload : Fields) (after : Option ℕ) → Emission
job_emission scheduler_id event_type job run_id payload after = record {
  event_type = event_type;
  source = EventSource.scheduler;
  payload = payload;
  project_id = job.project_id;
  job_id = some job.id;
  run_id = run_id;
  fanout_id = job.fanout_id;
  schedule_id = job.schedule_id;
  worker_id = none;
  scheduler_id = some scheduler_id;
  after = after;
}
