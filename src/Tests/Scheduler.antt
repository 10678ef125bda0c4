-- ===== src/Tests/Scheduler.antt =====
-- A scheduler on the sample store, with code around it that does nothing to the store.
use goblin_king.Base.{ℕ, ◌+◌, ◌≡◌, refl, Option, none, some, [], ◌∷◌, ok, String}
use goblin_king.Base.Int.{pos}
use goblin_king.Contracts.{
  JobRecord, JobStatus, RunRecord, RunStatus, GoblinResult, Fields, end, num, str, obj, field, text,
  get_field,
}
use goblin_king.Policies.{ResourcePolicy, policy_from_job_metadata}
use goblin_king.Registry.{GoblinDefinition}
use goblin_king.Table.{
  get_row, update_where, row_count, delete_where, insert_row, order_by, place, select_where,
}
use goblin_king.CausalTime.{causally_after, normalized, ensure_utc, lift_above, latest}
use goblin_king.Store.Events.{persist_event, sequenced, newest_event, latest_event_created_at}
use goblin_king.Store.Jobs.{settle_job, count_active_jobs, count_active_project_jobs}
use goblin_king.Scheduler.Events.{emit, event_time}
use goblin_king.Store.Jobs.Lookup.{job_row, HasJobIds}
use goblin_king.Store.Protocol.History.{Moved}
use goblin_king.Store.Runs.{
  owns_attempt, finalize_attempt, normalize_persisted_run, settle_attempt, finalize_run, insert_run,
  same_lineage, replace_run, run_values, insert_run_children,
}
use goblin_king.Scheduler.Action.{
  World, Action, done, ◌>>=◌, ◌>>◌, returned, query, draw, transact, when,
}
use goblin_king.Scheduler.Action.Keeps.{Keeps-done}
use goblin_king.Scheduler.Action.Returns.{Returns}
use goblin_king.Scheduler.Environment.{Outside, Scheduler, docker}
use goblin_king.Scheduler.Attempts.{
  failed_result, finish_attempt_timestamp, status_for_result, with_timeout_error,
}
use goblin_king.Scheduler.Refine.{IsTame, execute_claimed_job-Moved}
use goblin_king.Scheduler.Execute.{execute_claimed_job, conclude_attempt}
use goblin_king.Scheduler.Claims.{admit_job, announce_lease, deferral_of}
use goblin_king.Scheduler.Limits.{IsWithinLimits, admit_job-IsWithinLimits}
use goblin_king.Scheduler.Retry.{left_by, conclude_attempt-left_by}
use goblin_king.Scheduler.Pass.{run_once}
use goblin_king.Scheduler.Terminal.Passed.{run_once-terminal}
use goblin_king.Scheduler.Requests.{
  RetryCreateRequest, FanoutItem, retry_job, retry_source, retry_of, request_policy,
}
use goblin_king.Scheduler.Requests.Retried.{IsRetry, retry_job-IsRetry}
use goblin_king.Policies.{empty_policy, effective_for, merged_policy, validate_within_ceilings}
use goblin_king.Policies.Merge.{deep_merge, merge_value}
use goblin_king.Store.Jobs.{get_job, save_job}
use goblin_king.Contracts.{Json, get_field, set_field}
use goblin_king.Tests.Samples.{
  busy_store, queued_job, running_job, done_job, urgent_job, running_run,
}
use goblin_king.Tests.Policies.{sample_floats, sample_codec, sample_policies}

abbrev hello : GoblinDefinition
hello = record {
  kind = "example.hello";
  display_name = "Hello";
  module_name = "examples.hello";
  entrypoint = "run";
  timeout_seconds = none;
  max_retries = none;
  metadata = end;
}

abbrev boom : GoblinResult
boom = failed_result (some (text "boom")) end

-- Every run fails.
abbrev outside : Outside String ℕ
outside = record {
  uuid4 = λ n. "fresh";
  utc_now = λ n. 1000 + n;
  monotonic = λ n. n;
  isoformat = λ t. num (pos t);
  number = λ n. num (pos n);
  message_text = λ message. "message";
  error_text = λ error. "error";
  policy_error_text = λ error. "error";
  floats = sample_floats;
  codec = sample_codec;
  dump_definition = λ definition. str definition.kind;
  load = λ definition. ok definition.entrypoint;
  next_time = λ cron timezone now. some (now + 60);
  get_notebook_goblin = λ kind. done none;
  notebook_definition = λ notebook. hello;
  notebook_worker_input = λ notebook input. input;
  validation_error = λ binding job policy. done none;
  run_goblin = λ binding job context policy. done boom;
}

abbrev scheduler : Scheduler
scheduler = record {
  registry = record { definitions = hello ∷ [] };
  worker_id = "s1";
  lease_time = 60;
  claim_limit = 10;
  runtime_mode = docker;
  resource_policies = some sample_policies;
}

abbrev world : World
world = record { store = busy_store; heartbeats = []; audit_logs = []; draws = 0 }

tame : IsTame outside
tame = record {
  get_notebook_goblin = λ kind. Keeps-done none;
  validation_error = λ binding job policy. Keeps-done none;
  run_goblin = λ binding job context policy. Keeps-done boom;
}

execute_claimed_job-Moved_example :
    Moved "j2" running_job ((execute_claimed_job outside scheduler queued_job 50).run world).0.store
execute_claimed_job-Moved_example =
    execute_claimed_job-Moved outside scheduler queued_job 50 world "j2" running_job tame
      (unfold get_row in refl)

distinct : HasJobIds busy_store
unfolding get_row
distinct = (refl, (refl, (refl, (refl, tt))))

run_once-terminal_example :
    job_row "j3" ((run_once outside scheduler 100).run world).0.store ≡ some done_job
run_once-terminal_example =
    run_once-terminal outside scheduler 100 world "j3" done_job tame distinct
      (unfold get_row in refl) refl

-- At most two running jobs in the project.
abbrev carried_policy : Fields
carried_policy = field "resource_policy" (obj (field "max_project_running" (num (pos 2)) end)) end

-- The urgent job, leased to the scheduler.
abbrev leased_job : JobRecord
leased_job = record urgent_job {
  lease_owner = some "s1";
  leased_until = some 90;
  status = JobStatus.leased;
  metadata = carried_policy;
}

admitted :
    Returns
      (admit_job outside scheduler 100 leased_job)
      world
      ((admit_job outside scheduler 100 leased_job).run world).0
      (some leased_job)
unfolding admit_job ◌>>=◌ ◌>>◌ returned query done draw transact policy_from_job_metadata get_field
    deferral_of announce_lease count_active_project_jobs count_active_jobs row_count emit event_time
    persist_event sequenced newest_event causally_after normalized ensure_utc lift_above latest
    insert_row order_by place latest_event_created_at select_where
admitted = refl

admit_job-IsWithinLimits_example :
    (leased_job ≡ leased_job)
    × (policy : Option ResourcePolicy) × (policy_from_job_metadata sample_codec carried_policy
        ≡ ok policy)
    × IsWithinLimits policy leased_job busy_store
admit_job-IsWithinLimits_example =
    admit_job-IsWithinLimits outside scheduler 100 leased_job world
      ((admit_job outside scheduler 100 leased_job).run world).0 leased_job admitted

-- An attempt within the retries of its job.
abbrev retried_job : JobRecord
retried_job = record running_job { max_retries = 3 }

abbrev conclusion : Action RunRecord
conclusion = conclude_attempt outside scheduler retried_job running_run 0 50 boom

abbrev concluded_run : RunRecord
concluded_run = record running_run {
  status = RunStatus.failed;
  finished_at = some 1000;
  result = some boom;
  error = some (text "boom");
}

concluded : Returns conclusion world (conclusion.run world).0 concluded_run
unfolding conclude_attempt ◌>>=◌ ◌>>◌ query done draw transact when finish_attempt_timestamp
    status_for_result with_timeout_error finalize_attempt normalize_persisted_run settle_attempt
    owns_attempt settle_job finalize_run insert_run same_lineage replace_run run_values
    insert_run_children get_row update_where row_count delete_where emit event_time persist_event
    sequenced newest_event causally_after normalized ensure_utc lift_above latest insert_row
    order_by place latest_event_created_at select_where
concluded = refl

conclude_attempt-left_by_example :
    (concluded_run.attempt ≡ running_run.attempt)
    × (job_row "j2" (conclusion.run world).0.store ≡ some (left_by concluded_run 3 50 running_job))
conclude_attempt-left_by_example =
    conclude_attempt-left_by outside scheduler retried_job running_run 0 50 boom world
      (conclusion.run world).0 concluded_run running_job concluded (unfold get_row in refl)
      (unfold owns_attempt in refl)

abbrev retry_request : RetryCreateRequest
retry_request = record {
  reason = some "again";
  input = none;
  priority = none;
  max_retries = some 2;
  timeout_seconds = none;
}

abbrev dump_item : FanoutItem → Json
dump_item item = str item.kind

abbrev retry_action : Action JobRecord
retry_action = retry_job outside dump_item "j3" retry_request "ann" (some sample_policies)

-- The effective policy gives the default timeout.
abbrev fresh_retry : JobRecord
fresh_retry =
    retry_of outside dump_item done_job retry_request "ann" "fresh" 1001 1002
      (some (record empty_policy { timeout_seconds = some 60; max_retries = some 2 }))

retried : Returns retry_action world (retry_action.run world).0 fresh_retry
unfolding retry_job retry_source request_policy ◌>>=◌ ◌>>◌ query done draw transact returned get_job
    save_job insert_row get_row effective_for merged_policy validate_within_ceilings deep_merge
    merge_value get_field set_field
retried = refl

retry_job-IsRetry_example :
    (source : JobRecord) × (get_job "j3" busy_store ≡ some source)
    × IsRetry source fresh_retry busy_store (retry_action.run world).0.store
retry_job-IsRetry_example =
    retry_job-IsRetry outside dump_item retry_request "ann" (some sample_policies) "j3" world
      (retry_action.run world).0 fresh_retry retried
