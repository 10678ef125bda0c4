-- ===== src/Scheduler/Execute.antt =====
-- The steps of an attempt (_execute_claimed_job of scheduler.py): start, resolution, the validation
-- gate, the run, and its finalisation.
use goblin_king.Base.{
  ℕ, ◌+◌, ◌-◌, String, Option, none, some, [], ◌∷◌, Result, ok, raise, if◌then◌else◌,
}
use goblin_king.CausalTime.{utc, causally_after}
use goblin_king.Contracts.{
  str, end, field, JobRecord, JobStatus, RunRecord, RunStatus, GoblinResult, Message, text,
  validation_failure,
}
use goblin_king.Policies.{ResourcePolicy, policy_from_job_metadata}
use goblin_king.Registry.{GoblinDefinition, RegistryError, get, resolve}
use goblin_king.Store.Jobs.{try_mark_job_running}
use goblin_king.Store.Runs.{start_run, finalize_attempt}
use goblin_king.Scheduler.Action.{
  Action, SchedulerError, registry_error, policy_error, superseded, ◌>>=◌, ◌>>◌, done, fail,
  returned, transact, change, draw, attempt, when, on_option,
}
use goblin_king.Scheduler.Environment.{Scheduler, Outside, is_container, GoblinContext, Binding}
use goblin_king.Scheduler.Events.{emit, audit, job_emission}
use goblin_king.Scheduler.Attempts.{
  failed_result, status_for_result, with_timeout_error, is_retrying, final_status, run_context,
  final_event, outcome_text, is_finalized, compacted, full_context, opened_run, finished_run,
  finish_attempt_timestamp, error_json,
}

module _ {N F : Type 0} (outside : Outside N F) (scheduler : Scheduler) where
  -- `self.registry.get`, or `resolve` where the goblin runs in this process.
  abbrev pub lookup_definition : (kind : String) → Result RegistryError GoblinDefinition
  lookup_definition kind =
      if is_container scheduler.runtime_mode
      then get kind scheduler.registry
      else elim (resolve outside.load kind scheduler.registry) [
        | ok found ↦ ok found.0
        | raise e ↦ raise e
      ]

  -- A kind that the registry does not give is looked for among the notebooks.
  unfoldable pub bind_found : JobRecord → Result RegistryError GoblinDefinition → Action (Binding N)
  bind_found job (ok definition) =
      done (record { definition = definition; notebook = none; input = job.input })
  bind_found job (raise e) = do
    notebook ← outside.get_notebook_goblin job.kind
    on_option notebook (fail (registry_error e)) (λ found. done (record {
      definition = outside.notebook_definition found;
      notebook = some found;
      input = outside.notebook_worker_input found job.input;
    }))

  unfoldable pub bind_job : JobRecord → Action (Binding N)
  unfolding bind_found
  bind_job job = bind_found job (lookup_definition job.kind)

  abbrev gate_message : Result SchedulerError (Option Message) → Option Message
  gate_message (ok message) = message
  gate_message (raise e) = some (validation_failure (outside.error_text e))

  -- The gate in front of a container: any exception of it counts as a refusal.
  unfoldable pub check_gate :
      Binding N → JobRecord → Option ResourcePolicy → Action (Option Message)
  check_gate binding job policy =
      if is_container scheduler.runtime_mode
      then (do
        checked ← attempt (outside.validation_error binding job policy)
        done (gate_message checked))
      else done none

  -- A refused attempt is a failed run that never started, and is not retried.
  unfoldable pub refuse_attempt : JobRecord → (opened : RunRecord) → Message → Action RunRecord
  unfolding finish_attempt_timestamp
  refuse_attempt job opened error = do
    finished_at ← finish_attempt_timestamp outside job.id opened.started_at
    let run =
        finished_run opened RunStatus.failed finished_at (failed_result (some error) end)
          (some error)
    made ← transact (finalize_attempt run JobStatus.failed (some error) none scheduler.worker_id)
    when (is_finalized made.outcome) (
        emit outside (
          job_emission scheduler.worker_id "validation.scheduling_rejected" job (some made.run.id)
            (field "kind" (str job.kind) (field "error" (str (outside.message_text error)) end))
            made.run.finished_at))
    audit outside "validation.scheduling_rejected" "failure" job.project_id "job" job.id (
        field "kind" (str job.kind) (
          field "error" (str (outside.message_text error))
            (field "job_transition" (str (outcome_text made.outcome)) end)))
    done made.run

  -- The goblin's result; a notebook needs a container.
  unfoldable pub run_bound :
      Binding N → JobRecord → GoblinContext → Option ResourcePolicy → Action GoblinResult
  run_bound binding job context policy =
      if is_container scheduler.runtime_mode
      then outside.run_goblin binding job context policy
      else on_option binding.notebook (outside.run_goblin binding job context policy) (λ notebook.
        done (
          failed_result
            (some (text "notebook-defined goblins require docker or kubernetes runtime")) end))

  -- After the run: its status, its record, and the job settled with it or put up for a retry.
  unfoldable pub conclude_attempt :
      JobRecord → (opened : RunRecord) (began requested_start : ℕ) → GoblinResult → Action RunRecord
  unfolding finish_attempt_timestamp status_for_result with_timeout_error
  conclude_attempt job opened began requested_start result = do
    finished_at ← finish_attempt_timestamp outside job.id opened.started_at
    ended ← draw outside.monotonic
    let status = status_for_result result (ended - began) job.timeout_seconds
    let result' = with_timeout_error status job.timeout_seconds result
    let run = finished_run opened status finished_at result' result'.error
    let retrying = is_retrying status opened.attempt job.max_retries
    made ← transact (
        finalize_attempt run (final_status status retrying) result'.error
          (if retrying then some requested_start else none) scheduler.worker_id)
    when (is_finalized made.outcome) (
        emit outside (
          job_emission scheduler.worker_id (final_event status retrying) job (some made.run.id)
            (field "kind" (str job.kind) (
              field "attempt" (outside.number opened.attempt)
                (field "error" (error_json outside result'.error) end)))
            made.run.finished_at))
    done made.run

  -- The run of an attempt that passed the gate.
  unfoldable pub run_attempt :
      Binding N
      → JobRecord
      → GoblinContext
      → Option ResourcePolicy
      → (attempt started_at requested_start began : ℕ) → Action RunRecord
  unfolding run_bound conclude_attempt
  run_attempt binding job context policy attempt started_at requested_start began = do
    let opened =
        opened_run context.run_id job.kind job attempt started_at (compacted outside policy)
    transact (start_run opened)
    result ← run_bound binding job context policy
    conclude_attempt job opened began requested_start result

  -- What follows the start of the attempt.
  unfoldable pub perform_attempt :
      JobRecord → (attempt started_at requested_start began : ℕ) → Action RunRecord
  unfolding bind_job full_context check_gate refuse_attempt run_attempt
  perform_attempt job attempt started_at requested_start began = do
    binding ← bind_job job
    run_id ← draw outside.uuid4
    context_time ← draw outside.utc_now
    policy ← returned policy_error (policy_from_job_metadata outside.codec job.metadata)
    let context =
        full_context outside job policy
          (run_context run_id job (outside.number attempt) (outside.isoformat context_time))
    refusal ← check_gate binding job policy
    on_option refusal
        (run_attempt binding job context policy attempt started_at requested_start began)
        (λ error.
          refuse_attempt job
            (opened_run run_id binding.definition.kind job attempt started_at
              (compacted outside policy))
            error)

  unfoldable pub execute_claimed_job : JobRecord → (requested_start : ℕ) → Action RunRecord
  unfolding perform_attempt
  execute_claimed_job job requested_start = do
    let attempt = job.attempt_count + 1
    started ← change (try_mark_job_running job.id attempt scheduler.worker_id)
    if started then done (tt {0}) else fail (superseded job.id)
    running_event ← emit outside (
        job_emission scheduler.worker_id "job.running" job none
          (field "kind" (str job.kind) (field "attempt" (outside.number attempt) end))
          (some job.created_at))
    let started_at = causally_after (some (utc running_event.created_at) ∷ []) (utc requested_start)
    began ← draw outside.monotonic
    perform_attempt job attempt started_at requested_start began
