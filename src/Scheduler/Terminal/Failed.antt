-- ===== src/Scheduler/Terminal/Failed.antt =====
-- The record of an attempt that raised leaves terminal jobs alone (scheduler_failures.py).
use goblin_king.Base.{
  ℕ, String, ◌≡◌, refl, ◌∙◌, ap, false, Option, none, some, arith, Option-cases, inl, inr,
  Bool-cases,
}
use goblin_king.Contracts.{JobRecord, JobStatus, RunRecord, is_terminal, job_status}
use goblin_king.Table.Laws.{get_row-key}
use goblin_king.Store.{Store}
use goblin_king.Store.Jobs.{job_key, get_job}
use goblin_king.Store.Jobs.Lookup.{job_row}
use goblin_king.Store.Runs.{list_job_runs}
use goblin_king.Scheduler.Action.{
  World, SchedulerError, disappeared, ◌>>=◌, ◌>>◌, done, fail, query, change, on_option,
}
use goblin_king.Scheduler.Action.Keeps.{
  Keeps, Keeps-bind, Keeps-then, Keeps-done, Keeps-draw, Keeps-query, Keeps-returned, Keeps-when,
}
use goblin_king.Scheduler.Environment.{Outside}
use goblin_king.Scheduler.SameJobs.{emit-same_jobs, finish_attempt_timestamp-same_jobs}
use goblin_king.Scheduler.Refine.{moves, same_jobs-moves, finalize_attempt-Moves}
use goblin_king.Scheduler.Failures.{
  Recovery, keep, settle, record_failure, recovery_of, latest_run, failure_started_at, fail_attempt,
  recover, record_unexpected_job_failure,
}
use goblin_king.Scheduler.Terminal.{
  KeepsTerminal, terminal_kept, moves-terminal, IsOpen, finish_job-terminal,
}

-- A job is settled by an earlier run only if it is not terminal.
recovery_of-settle :
    (job : JobRecord) (latest : Option RunRecord) (run : RunRecord)
    → recovery_of job latest ≡ settle run
    → is_terminal job.status ≡ false
unfolding recovery_of
recovery_of-settle job none run h = ground arith
recovery_of-settle job (some latest) run h = elim (Bool-cases (is_terminal job.status)) [
  | inr e ↦ e
  | inl e ↦ ground arith
]

module _ {N F : Type 0} (outside : Outside N F) (scheduler_id : String) where
  failure_started_at-Moves :
      (current : JobRecord) (running_run : Option RunRecord) (started_at : ℕ)
      → Keeps moves (failure_started_at outside scheduler_id current running_run started_at)
  unfolding failure_started_at
  failure_started_at-Moves current none started_at =
      Keeps-bind (Keeps-query _) (λ running. Keeps-done _)
  failure_started_at-Moves current (some run) started_at = Keeps-done run.started_at

  fail_attempt-Moves :
      (current claimed_job : JobRecord) (running_run : Option RunRecord) (started_at : ℕ)
      (error : String)
      → Keeps moves
          (fail_attempt outside scheduler_id current claimed_job running_run started_at error)
  unfolding fail_attempt
  fail_attempt-Moves current claimed_job running_run started_at error =
      Keeps-bind (Keeps-draw outside.uuid4) (λ fresh. Keeps-bind (Keeps-draw outside.utc_now) (λ _.
        Keeps-bind (Keeps-returned _ _) (λ policy.
          Keeps-bind (failure_started_at-Moves current running_run started_at) (λ opened_at.
            Keeps-bind
              (same_jobs-moves (finish_attempt_timestamp-same_jobs outside current.id opened_at))
              (λ finished_at.
                Keeps-bind (finalize_attempt-Moves _ JobStatus.failed _ _ _ refl) (λ made.
                  Keeps-then (Keeps-when _ (same_jobs-moves (emit-same_jobs outside _)))
                    (Keeps-done made.run)))))))

  recover-terminal :
      (current claimed_job : JobRecord) (recovery : Recovery) (started_at : ℕ) (error : String)
      (world : World)
      → ((run : RunRecord) → recovery ≡ settle run → IsOpen world.store current.id)
      → KeepsTerminal world.store
          ((recover outside scheduler_id current claimed_job recovery started_at error).run
            world).0.store
  unfolding recover terminal_kept ◌>>◌ ◌>>=◌ change done
  recover-terminal current claimed_job (keep run) started_at error world opens =
      λ job_id job found ended. found
  recover-terminal current claimed_job (settle run) started_at error world opens =
      finish_job-terminal current.id (job_status run.status) run.error none world.store
        (opens run refl)
  recover-terminal current claimed_job (record_failure running_run) started_at error world opens =
      (moves-terminal (fail_attempt-Moves current claimed_job running_run started_at error)).along
        world

  found-IsOpen :
      (job_id : String) (store : Store) (current : JobRecord) (latest : Option RunRecord)
      (run : RunRecord)
      → get_job job_id store ≡ some current
      → recovery_of current latest ≡ settle run
      → IsOpen store current.id
  unfolding get_job
  found-IsOpen job_id store current latest run found settles =
      let is_open = recovery_of-settle current latest run settles in
      elim (Option-cases (job_row job_id store)) [
        | inl absent ↦ absurd (ground arith)
        | inr (row, at) ↦
            let same_id : current.id ≡ row.id = ground arith in
            let key = get_row-key job_key job_id store.jobs row at in
            (row, ap (λ i. job_row i store) (same_id ∙ key) ∙ at, ground arith)
      ]

  recovered :
      (claimed_job : JobRecord) (started_at : ℕ) (error : String) (found : Option JobRecord)
      (world : World)
      → get_job claimed_job.id world.store ≡ found
      → KeepsTerminal world.store
          ((on_option found (fail (disappeared claimed_job.id)) (λ current.
              query (list_job_runs current.id) >>= λ prior_runs.
              recover outside scheduler_id current claimed_job
                (recovery_of current (latest_run prior_runs))
                started_at
                error)).run
            world).0.store
  unfolding fail query ◌>>=◌
  recovered claimed_job started_at error none world h = λ job_id job found ended. found
  recovered claimed_job started_at error (some current) world h =
      let latest = latest_run (list_job_runs current.id world.store) in
      recover-terminal current claimed_job (recovery_of current latest) started_at error world
        (λ run settles. found-IsOpen claimed_job.id world.store current latest run h settles)

  pub record_unexpected_job_failure-terminal :
      (claimed_job : JobRecord) (started_at : ℕ) (error : SchedulerError)
      → Keeps terminal_kept
          (record_unexpected_job_failure outside scheduler_id claimed_job started_at error)
  unfolding record_unexpected_job_failure terminal_kept query ◌>>=◌
  record_unexpected_job_failure-terminal claimed_job started_at error = record {
    along = λ world.
        recovered claimed_job started_at (outside.error_text error)
          (get_job claimed_job.id world.store) world refl;
  }
