-- ===== src/Scheduler/Pass.antt =====
-- One pass of the scheduler (run_once of scheduler.py): heartbeat, schedules, claim, and one attempt
-- of each claimed job, whose exceptions do not end the pass.
use goblin_king.Base.{ℕ, zero, Option, none, some, List, [], ◌∷◌, ok, raise, Result}
use goblin_king.Contracts.{str, end, field, JobRecord, RunRecord, HeartbeatOwner}
use goblin_king.Scheduler.Action.{
  Action, SchedulerError, superseded, other_error, ◌>>=◌, ◌>>◌, done, fail, attempt,
}
use goblin_king.Scheduler.Environment.{Scheduler, Outside, mode_text}
use goblin_king.Scheduler.Events.{heartbeat}
use goblin_king.Scheduler.Materialize.{materialize_due_schedules}
use goblin_king.Scheduler.Claims.{claim_runnable}
use goblin_king.Scheduler.Execute.{execute_claimed_job}
use goblin_king.Scheduler.Failures.{record_unexpected_job_failure}

-- The leases that a pass keeps alive need a positive length. The renewals themselves are calls of
-- other threads, between the pass's own.
abbrev pub enter_leases : (lease_time : ℕ) → List JobRecord → Action (Unit {0})
enter_leases zero (job ∷ jobs) = fail (other_error "lease_seconds must be greater than zero")
enter_leases _ _ = done tt

module _ {N F : Type 0} (outside : Outside N F) (scheduler : Scheduler) where
  -- The handlers around an attempt: `none` where another scheduler or a cancellation was first.
  unfoldable pub reconcile :
      JobRecord → (current : ℕ) → Result SchedulerError RunRecord → Action (Option RunRecord)
  reconcile job current (ok run) = done (some run)
  reconcile job current (raise (superseded _)) = done none
  reconcile job current (raise error) = do
    run ← record_unexpected_job_failure outside scheduler.worker_id job current error
    done (some run)

  abbrev pub and_run : Option RunRecord → List RunRecord → List RunRecord
  and_run none runs = runs
  and_run (some run) runs = run ∷ runs

  unfoldable pub run_each : (current : ℕ) → List JobRecord → Action (List RunRecord)
  unfolding reconcile
  run_each current [] = done []
  run_each current (job ∷ jobs) = do
    result ← attempt (execute_claimed_job outside scheduler job current)
    first ← reconcile job current result
    rest ← run_each current jobs
    done (and_run first rest)

  unfoldable pub run_once : (current : ℕ) → Action (List RunRecord)
  unfolding run_each
  run_once current = do
    heartbeat outside scheduler.worker_id HeartbeatOwner.scheduler "running"
        (field "runtime" (str (mode_text scheduler.runtime_mode)) end)
    materialize_due_schedules outside scheduler current
    claimed_jobs ← claim_runnable outside scheduler current
    enter_leases scheduler.lease_time claimed_jobs
    run_each current claimed_jobs
