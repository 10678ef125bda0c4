-- ===== src/Scheduler/Failures.antt =====
-- An attempt that raised is made into one durable failure (record_unexpected_job_failure of
-- scheduler_failures.py).
use goblin_king.Base.{
  ℕ, ◌+◌, String, Bool, true, not, ◌&&◌, ◌||◌, Option, none, some, List, [], ◌∷◌, ltb, leb, eqb,
  is_some, or_else, max, if◌then◌else◌,
}
use goblin_king.CausalTime.{utc, causally_after}
use goblin_king.Contracts.{
  str, bool, end, field, JobRecord, JobStatus, RunRecord, RunStatus, boundary_failure, job_status,
  is_terminal, is_leased, is_finished,
}
use goblin_king.Policies.{policy_from_job_metadata}
use goblin_king.Store.Jobs.{get_job, finish_job}
use goblin_king.Store.Events.{latest_event_created_at}
use goblin_king.Store.Runs.{list_job_runs, finalize_attempt}
use goblin_king.Scheduler.Action.{
  Action, SchedulerError, policy_error, disappeared, ◌>>=◌, ◌>>◌, done, fail, returned, query,
  transact, change, draw, when, on_option,
}
use goblin_king.Scheduler.Environment.{Outside}
use goblin_king.Scheduler.Events.{emit, job_emission}
use goblin_king.Scheduler.Attempts.{
  failed_result, compacted, opened_run, finished_run, finish_attempt_timestamp, is_finalized,
  instant_of,
}

-- `run.finished_at or run.started_at`
abbrev pub end_of : RunRecord → ℕ
end_of run = or_else run.finished_at run.started_at

-- The keys of the `max`: by attempt, then finished after unfinished, then by time.
unfoldable pub is_behind : RunRecord → RunRecord → Bool
is_behind a b =
    ltb a.attempt b.attempt
    || eqb a.attempt b.attempt
      && (not (is_some a.finished_at) && is_some b.finished_at
          || (is_some b.finished_at || not (is_some a.finished_at)) && ltb (end_of a) (end_of b))

-- `max` keeps the first of equal runs.
unfoldable pub latest_of : RunRecord → List RunRecord → RunRecord
unfolding is_behind
latest_of run [] = run
latest_of run (other ∷ runs) = latest_of (if is_behind run other then other else run) runs

unfoldable pub latest_run : List RunRecord → Option RunRecord
unfolding latest_of
latest_run [] = none
latest_run (run ∷ runs) = some (latest_of run runs)

-- What the earlier runs leave to do: nothing, the job's status, or a failed run, which may finish a
-- run that is open.
pub data Recovery : Type 0 where
  keep : (run : RunRecord) → Recovery
  settle : (run : RunRecord) → Recovery
  record_failure : (running_run : Option RunRecord) → Recovery

abbrev pub recovery_from : JobRecord → RunRecord → Recovery
recovery_from job run =
    if is_finished run.status
    then (if is_terminal job.status && leb job.attempt_count run.attempt
        then keep run
        else if not (is_leased job.status) && leb job.attempt_count run.attempt
        then settle run
        else record_failure none)
    else if leb job.attempt_count run.attempt
    then record_failure (some run)
    else record_failure none

unfoldable pub recovery_of : JobRecord → Option RunRecord → Recovery
recovery_of job none = record_failure none
recovery_of job (some run) = recovery_from job run

abbrev pub failed_attempt : (current claimed_job : JobRecord) → ℕ
failed_attempt current claimed_job =
    max (if is_leased current.status then current.attempt_count + 1 else current.attempt_count)
      (claimed_job.attempt_count + 1)

abbrev pub run_id_of : Option RunRecord → String → String
run_id_of none fresh = fresh
run_id_of (some run) fresh = run.id

module _ {N F : Type 0} (outside : Outside N F) (scheduler_id : String) where
  -- `attempt_started_at`
  unfoldable pub failure_started_at : JobRecord → Option RunRecord → (started_at : ℕ) → Action ℕ
  failure_started_at current (some run) started_at = done run.started_at
  failure_started_at current none started_at = do
    running ← query (latest_event_created_at (some current.id) (some "job.running"))
    done (
        causally_after (some (utc current.created_at) ∷ instant_of outside running)
          (utc started_at))

  unfoldable pub fail_attempt :
      (current claimed_job : JobRecord)
      → Option RunRecord
      → (started_at : ℕ) → (error : String) → Action RunRecord
  unfolding failure_started_at finish_attempt_timestamp
  fail_attempt current claimed_job running_run started_at error = do
    fresh ← draw outside.uuid4
    _ ← draw outside.utc_now
    policy ← returned policy_error (policy_from_job_metadata outside.codec current.metadata)
    opened_at ← failure_started_at current running_run started_at
    finished_at ← finish_attempt_timestamp outside current.id opened_at
    let message = boundary_failure error
    let attempt = failed_attempt current claimed_job
    let opened =
        opened_run (run_id_of running_run fresh) current.kind current attempt opened_at
          (compacted outside policy)
    let run =
        finished_run opened RunStatus.failed finished_at (failed_result (some message) end)
          (some message)
    made ← transact (finalize_attempt run JobStatus.failed (some message) none scheduler_id)
    when (is_finalized made.outcome) (
        emit outside (
          job_emission scheduler_id "job.failed" current (some made.run.id)
            (field "kind" (str current.kind) (
              field "attempt" (outside.number attempt) (
                field "error" (str (outside.message_text message))
                  (field "scheduler_exception" (bool true) end))))
            made.run.finished_at))
    done made.run

  unfoldable pub recover :
      (current claimed_job : JobRecord)
      → Recovery
      → (started_at : ℕ) → (error : String) → Action RunRecord
  unfolding fail_attempt
  recover current claimed_job (keep run) started_at error = done run
  recover current claimed_job (settle run) started_at error = do
    change (λ store. (finish_job current.id (job_status run.status) run.error none store, tt {0}))
    done run
  recover current claimed_job (record_failure running_run) started_at error =
      fail_attempt current claimed_job running_run started_at error

  unfoldable pub record_unexpected_job_failure :
      (claimed_job : JobRecord) (started_at : ℕ) (error : SchedulerError) → Action RunRecord
  unfolding recovery_of latest_run recover
  record_unexpected_job_failure claimed_job started_at error = do
    found ← query (get_job claimed_job.id)
    on_option found (fail (disappeared claimed_job.id)) (λ current. do
      prior_runs ← query (list_job_runs current.id)
      recover current claimed_job (recovery_of current (latest_run prior_runs)) started_at
          (outside.error_text error))
