-- ===== src/Scheduler/Materialize.antt =====
-- Due schedules become queued jobs (materialize_due_schedules of scheduler.py).
use goblin_king.Base.{ℕ, String, Option, none, some, List, [], ◌∷◌, Result, ok, raise, or_else}
use goblin_king.Contracts.{
  str, obj, Fields, end, field, set_field, JobRecord, JobStatus, ScheduleRecord, EventSource,
}
use goblin_king.Policies.{ResourcePolicy, ResourcePolicySet, PolicyError, effective_for}
use goblin_king.Registry.{get, goblin_job_metadata}
use goblin_king.Store.Jobs.{save_job}
use goblin_king.Store.Schedules.{list_due_schedules, update_schedule_after_materialize}
use goblin_king.Scheduler.Action.{
  Action, registry_error, other_error, ◌>>=◌, ◌>>◌, done, fail, returned, query, transact,
  only_store, change, draw,
}
use goblin_king.Scheduler.Environment.{Scheduler, Outside}
use goblin_king.Scheduler.Events.{Emission, emit}

-- The job that a schedule asks for.
abbrev pub scheduled_job :
    (id : String) (definition_kind : String) (metadata : Fields) → ScheduleRecord → ℕ → JobRecord
scheduled_job id definition_kind metadata schedule current = record {
  id = id;
  kind = definition_kind;
  input = schedule.input;
  created_at = current;
  created_by = "scheduler";
  correlation_id = none;
  project_id = schedule.project_id;
  fanout_id = none;
  metadata = metadata;
  status = JobStatus.queued;
  priority = schedule.priority;
  schedule_id = some schedule.id;
  due_at = some current;
  lease_owner = none;
  leased_until = none;
  attempt_count = 0;
  max_retries = schedule.max_retries;
  timeout_seconds = schedule.timeout_seconds;
  last_error = none;
}

module _ {N F : Type 0} (outside : Outside N F) (scheduler : Scheduler) where
  -- The job under the effective policy.
  abbrev pub with_policy : JobRecord → ResourcePolicy → JobRecord
  with_policy job policy = record job {
    metadata = set_field "resource_policy" (obj (outside.codec.compact policy)) job.metadata;
    timeout_seconds = policy.timeout_seconds;
    max_retries = or_else policy.max_retries 0;
  }

  -- `none` where no policies are configured.
  abbrev pub policy_for :
      (kind : String) (timeout_seconds : Option ℕ) (max_retries : ℕ)
      → Option ResourcePolicySet
      → Result PolicyError (Option ResourcePolicy)
  policy_for kind timeout_seconds max_retries none = ok none
  policy_for kind timeout_seconds max_retries (some policies) =
      elim (effective_for outside.floats outside.codec policies kind timeout_seconds
        (some max_retries)) [ ok policy ↦ ok (some policy) | raise e ↦ raise e ]

  abbrev pub under_policy : JobRecord → Option ResourcePolicy → JobRecord
  under_policy job none = job
  under_policy job (some policy) = with_policy job policy

  abbrev schedule_emission :
      (event_type : String)
      → ScheduleRecord
      → (job_id : Option String) (payload : Fields) (after : Option ℕ) → Emission
  schedule_emission event_type schedule job_id payload after = record {
    event_type = event_type;
    source = EventSource.scheduler;
    payload = payload;
    project_id = schedule.project_id;
    job_id = job_id;
    run_id = none;
    fanout_id = none;
    schedule_id = some schedule.id;
    worker_id = none;
    scheduler_id = some scheduler.worker_id;
    after = after;
  }

  -- `next_run_after`
  abbrev pub time_found : ScheduleRecord → Option ℕ → Action ℕ
  time_found schedule none = fail (other_error schedule.cron)
  time_found schedule (some next) = done next

  abbrev pub next_run_after : ScheduleRecord → ℕ → Action ℕ
  next_run_after schedule now =
      time_found schedule (outside.next_time schedule.cron schedule.timezone now)

  -- The last statements of the loop, for a job that may be queued.
  unfoldable pub queue_scheduled : (current : ℕ) → ScheduleRecord → JobRecord → Action JobRecord
  queue_scheduled current schedule job = do
    transact (λ store. only_store (save_job job store))
    next ← next_run_after schedule current
    change (λ store. (update_schedule_after_materialize schedule.id current next store, tt {0}))
    emit outside (
        schedule_emission "schedule.materialized" schedule (some job.id)
          (field "kind" (str schedule.kind) (field "due_at" (outside.isoformat current) end))
          (some job.created_at))
    done job

  -- The job under the effective policy, or `none` where the policy is rejected.
  unfoldable pub materialize_under :
      (current : ℕ)
      → ScheduleRecord
      → JobRecord
      → Result PolicyError (Option ResourcePolicy)
      → Action (Option JobRecord)
  unfolding queue_scheduled
  materialize_under current schedule job (raise e) = do
    emit outside (
        schedule_emission "resource_policy.rejected" schedule none
          (field "kind" (str schedule.kind) (field "error" (str (outside.policy_error_text e)) end))
          none)
    done none
  materialize_under current schedule job (ok policy) = do
    saved ← queue_scheduled current schedule (under_policy job policy)
    done (some saved)

  -- One turn of the loop.
  unfoldable pub materialize_schedule : (current : ℕ) → ScheduleRecord → Action (Option JobRecord)
  unfolding materialize_under
  materialize_schedule current schedule = do
    definition ← returned registry_error (get schedule.kind scheduler.registry)
    id ← draw outside.uuid4
    let job =
        scheduled_job id definition.kind (goblin_job_metadata outside.dump_definition definition)
          schedule current
    materialize_under current schedule job (
        policy_for schedule.kind schedule.timeout_seconds schedule.max_retries
          scheduler.resource_policies)

  abbrev pub and_more : Option JobRecord → List JobRecord → List JobRecord
  and_more none jobs = jobs
  and_more (some job) jobs = job ∷ jobs

  unfoldable pub materialize_each : (current : ℕ) → List ScheduleRecord → Action (List JobRecord)
  unfolding materialize_schedule
  materialize_each current [] = done []
  materialize_each current (schedule ∷ schedules) = do
    first ← materialize_schedule current schedule
    rest ← materialize_each current schedules
    done (and_more first rest)

  unfoldable pub materialize_due_schedules : (current : ℕ) → Action (List JobRecord)
  unfolding materialize_each
  materialize_due_schedules current = do
    due ← query (list_due_schedules current)
    materialize_each current due
