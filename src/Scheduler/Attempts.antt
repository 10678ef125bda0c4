-- ===== src/Scheduler/Attempts.antt =====
-- The values of an attempt (_execute_claimed_job of scheduler.py): its status, the decision to retry,
-- the run's columns and its context.
use goblin_king.Base.{
  ℕ, ◌*◌, String, Bool, true, false, Option, none, some, List, [], ◌∷◌, ltb, leb, if◌then◌else◌,
}
use goblin_king.CausalTime.{DateTime, utc, causally_after}
use goblin_king.Contracts.{
  Json, null, str, obj, Fields, end, field, get_field, set_field, JobRecord, JobStatus, RunRecord,
  RunStatus, GoblinResult, ResultStatus, Message, exceeded_timeout, job_status,
}
use goblin_king.Policies.{ResourcePolicy}
use goblin_king.Store.Events.{latest_event_created_at}
use goblin_king.Store.Runs.{AttemptOutcome}
use goblin_king.Scheduler.Action.{Action, ◌>>=◌, done, query, draw, attempt}
use goblin_king.Scheduler.Environment.{Outside, GoblinContext}

-- `GoblinResult.failed(error=..., data=...)`
abbrev pub failed_result : Option Message → Fields → GoblinResult
failed_result error data_fields = record {
  status = ResultStatus.failed;
  data_fields = data_fields;
  artifacts = [];
  metrics = end;
  handoff = [];
  error = error;
}

abbrev pub is_success : ResultStatus → Bool
is_success ResultStatus.success = true
is_success ResultStatus.failed = false

-- `timeout_seconds is not None and elapsed_seconds > timeout_seconds`
abbrev pub is_late : (elapsed : ℕ) → Option ℕ → Bool
is_late elapsed none = false
is_late elapsed (some timeout_seconds) = ltb (timeout_seconds * 1000000) elapsed

-- `_status_for_result`
unfoldable pub status_for_result : GoblinResult → (elapsed : ℕ) → Option ℕ → RunStatus
status_for_result result elapsed timeout_seconds =
    if is_late elapsed timeout_seconds
    then RunStatus.timed_out
    else if is_success result.status
    then RunStatus.completed
    else RunStatus.failed

-- A run that is timed out without an error of its own gets one.
unfoldable pub with_timeout_error : RunStatus → Option ℕ → GoblinResult → GoblinResult
with_timeout_error RunStatus.timed_out timeout_seconds result = elim result.error [
  | none ↦ failed_result (some (exceeded_timeout timeout_seconds)) result.data_fields
  | some error ↦ result
]
with_timeout_error _ timeout_seconds result = result

-- `status == "failed" and attempt <= job.max_retries`
abbrev pub is_retrying : RunStatus → (attempt max_retries : ℕ) → Bool
is_retrying RunStatus.failed attempt max_retries = leb attempt max_retries
is_retrying _ attempt max_retries = false

abbrev pub final_status : RunStatus → (retrying : Bool) → JobStatus
final_status status retrying = if retrying then JobStatus.retrying else job_status status

-- `new_run_context`, `started_at` in the metadata being a fresh reading of the clock.
abbrev pub run_context : (run_id : String) → JobRecord → (attempt started_at : Json) → GoblinContext
run_context run_id job attempt started_at = record {
  run_id = run_id;
  artifact_job_id = job.id;
  metadata =
      field "job_id" (str job.id)
        (field "kind" (str job.kind) (field "attempt" attempt (field "started_at" started_at end)));
}

-- `metadata[key] = value` where there is a value that is not None.
abbrev pub carry : (key : String) → Option Json → Fields → Fields
carry key none metadata = metadata
carry key (some null) metadata = metadata
carry key (some value) metadata = set_field key value metadata

abbrev pub carry_text : (key : String) → Option String → Fields → Fields
carry_text key none metadata = metadata
carry_text key (some value) metadata = set_field key (str value) metadata

-- `f"job.{status}"`, or `job.retrying`
abbrev pub final_event : RunStatus → (retrying : Bool) → String
final_event RunStatus.running retrying = if retrying then "job.retrying" else "job.running"
final_event RunStatus.completed retrying = if retrying then "job.retrying" else "job.completed"
final_event RunStatus.failed retrying = if retrying then "job.retrying" else "job.failed"
final_event RunStatus.timed_out retrying = if retrying then "job.retrying" else "job.timed_out"

abbrev pub outcome_text : AttemptOutcome → String
outcome_text AttemptOutcome.finalized = "finalized"
outcome_text AttemptOutcome.cancelled = "cancelled"
outcome_text AttemptOutcome.stale = "stale"

abbrev pub is_finalized : AttemptOutcome → Bool
is_finalized AttemptOutcome.finalized = true
is_finalized _ = false

-- The run's columns at its start.
abbrev pub opened_run :
    (run_id kind : String) → JobRecord → (attempt started_at : ℕ) → Option Fields → RunRecord
opened_run run_id kind job attempt started_at policy = record {
  id = run_id;
  job_id = job.id;
  kind = kind;
  project_id = job.project_id;
  attempt = attempt;
  status = RunStatus.running;
  started_at = started_at;
  finished_at = none;
  result = none;
  error = none;
  timeout_seconds = job.timeout_seconds;
  max_retries = job.max_retries;
  leased_until = job.leased_until;
  resource_policy = policy;
}

abbrev pub finished_run :
    RunRecord → RunStatus → (finished_at : ℕ) → GoblinResult → Option Message → RunRecord
finished_run run status finished_at result error = record run {
  status = status;
  finished_at = some finished_at;
  result = some result;
  error = error;
}

module _ {N F : Type 0} (outside : Outside N F) where
  abbrev pub compacted : Option ResourcePolicy → Option Fields
  compacted none = none
  compacted (some policy) = some (outside.codec.compact policy)

  abbrev pub carry_policy : Option Fields → Fields → Fields
  carry_policy none metadata = metadata
  carry_policy (some policy) metadata = set_field "resource_policy" (obj policy) metadata

  -- The context with the project, the goblin's source and the policy in its metadata.
  unfoldable pub full_context : JobRecord → Option ResourcePolicy → GoblinContext → GoblinContext
  full_context job policy context = record context {
    metadata = carry_policy (compacted policy) (
        carry "goblin_definition" (get_field "goblin_definition" job.metadata) (
          carry "goblin_source" (get_field "goblin_source" job.metadata)
            (carry_text "project_id" job.project_id context.metadata)));
  }

  abbrev pub instant_of : Option ℕ → List (Option DateTime)
  instant_of none = none ∷ []
  instant_of (some t) = some (utc t) ∷ []

  -- `_finish_attempt_timestamp`
  unfoldable pub finish_attempt_timestamp : (job_id : String) (started_at : ℕ) → Action ℕ
  finish_attempt_timestamp job_id started_at = do
    newest ← query (latest_event_created_at (some job_id) none)
    current ← draw outside.utc_now
    done (causally_after (some (utc started_at) ∷ instant_of newest) (utc current))

  abbrev pub error_json : Option Message → Json
  error_json none = null
  error_json (some message) = str (outside.message_text message)
