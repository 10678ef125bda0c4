-- ===== src/Tests/Samples.antt =====
-- A small store: one queued job, one that a scheduler is running, one that is done.
use goblin_king.Base.{ℕ, String, none, some, [], ◌∷◌}
use goblin_king.Base.Int.{pos}
use goblin_king.Contracts.{
  JobRecord, JobStatus, RunRecord, RunStatus, EventRecord, EventSource, end, text,
}
use goblin_king.Store.{Store, empty_store}

abbrev pub sample_job : String → JobStatus → ℕ → JobRecord
sample_job id status priority = record {
  id = id;
  kind = "example.hello";
  input = end;
  created_at = 10;
  created_by = "cli";
  correlation_id = none;
  project_id = some "p1";
  fanout_id = none;
  metadata = end;
  status = status;
  priority = pos priority;
  schedule_id = none;
  due_at = some 20;
  lease_owner = none;
  leased_until = none;
  attempt_count = 0;
  max_retries = 1;
  timeout_seconds = none;
  last_error = none;
}

abbrev pub queued_job : JobRecord
queued_job = sample_job "j1" JobStatus.queued 100

-- Scheduler s1 runs its second attempt.
abbrev pub running_job : JobRecord
running_job = record (sample_job "j2" JobStatus.running 100) {
  lease_owner = some "s1";
  leased_until = some 90;
  attempt_count = 2;
}

abbrev pub done_job : JobRecord
done_job = sample_job "j3" JobStatus.completed 100

abbrev pub urgent_job : JobRecord
urgent_job = sample_job "j4" JobStatus.retrying 500

abbrev pub running_run : RunRecord
running_run = record {
  id = "r2";
  job_id = "j2";
  kind = "example.hello";
  project_id = some "p1";
  attempt = 2;
  status = RunStatus.running;
  started_at = 50;
  finished_at = none;
  result = none;
  error = none;
  timeout_seconds = none;
  max_retries = 1;
  leased_until = some 90;
  resource_policy = none;
}

abbrev pub failed_run : RunRecord
failed_run = record running_run { status = RunStatus.failed; error = some (text "boom") }

abbrev pub busy_store : Store
busy_store = record empty_store {
  jobs = queued_job ∷ running_job ∷ done_job ∷ urgent_job ∷ [];
  runs = running_run ∷ [];
}

abbrev pub first_event : EventRecord
first_event = record {
  id = "e1";
  sequence = 0;
  created_at = 40;
  event_type = "job.running";
  source = EventSource.scheduler;
  project_id = some "p1";
  job_id = some "j2";
  run_id = none;
  fanout_id = none;
  schedule_id = none;
  worker_id = none;
  scheduler_id = some "s1";
  payload = end;
}

abbrev pub second_event : EventRecord
second_event = record first_event { id = "e2"; created_at = 35 }
