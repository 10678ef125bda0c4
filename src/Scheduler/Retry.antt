-- ===== src/Scheduler/Retry.antt =====
-- How an attempt that still holds its job leaves it (the end of _execute_claimed_job).
use goblin_king.Base.{
  ℕ, ◌-◌, String, ◌≡◌, refl, ◌∙◌, sym, ap, subst, Bool, true, Option, none, some, ok, leb, arith,
  inl, inr, if◌then◌else◌, Bool-cases,
}
use goblin_king.Contracts.{
  JobRecord, JobStatus, RunRecord, RunStatus, GoblinResult, Message, is_finished,
}
use goblin_king.Store.{Store}
use goblin_king.Store.Jobs.{job_key, settle_job}
use goblin_king.Table.{get_row}
use goblin_king.Store.Jobs.Lookup.{job_row}
use goblin_king.Store.Runs.{
  finalize_attempt, owns_attempt, normalize_persisted_run, AttemptFinalization,
}
use goblin_king.Store.Runs.Finalize.{finalize_attempt-Recorded}
use goblin_king.Scheduler.Action.{World}
use goblin_king.Scheduler.Action.Keeps.{Keeps-draw, Keeps-when}
use goblin_king.Scheduler.Action.Returns.{
  Returns, Keeps-Returns, bind-Returns, then-Returns, done-Returns, transact-Returns,
}
use goblin_king.Scheduler.Environment.{Outside, Scheduler}
use goblin_king.Scheduler.SameJobs.{same_jobs, emit-same_jobs, finish_attempt_timestamp-same_jobs}
use goblin_king.Scheduler.Attempts.{
  final_status, is_retrying, status_for_result, with_timeout_error, finished_run,
}
use goblin_king.Scheduler.Execute.{conclude_attempt}

-- The job after its attempt, by the attempt's run: free of the lease, with the run's error; put up
-- for a retry at once if the run failed and the attempt is within the retries, and else with the
-- run's status and its own due time.
abbrev pub left_by : RunRecord → (max_retries requested_start : ℕ) → JobRecord → JobRecord
left_by run max_retries requested_start job = record job {
  lease_owner = none;
  leased_until = none;
  last_error = run.error;
  status = elim run.status [
    | RunStatus.failed ↦
        if leb run.attempt max_retries then JobStatus.retrying else JobStatus.failed
    | RunStatus.completed ↦ JobStatus.completed
    | RunStatus.timed_out ↦ JobStatus.timed_out
    | RunStatus.running ↦ JobStatus.running
  ];
  due_at = elim run.status [
    | RunStatus.failed ↦ if leb run.attempt max_retries then some requested_start else job.due_at
    | _ ↦ job.due_at
  ];
}

settle_job-left_by :
    (run : RunRecord) (max_retries requested_start : ℕ) (job : JobRecord)
    → settle_job
        (final_status run.status (is_retrying run.status run.attempt max_retries))
        run.error
        (if is_retrying run.status run.attempt max_retries then some requested_start else none)
        job
      ≡ left_by run max_retries requested_start job
unfolding settle_job
settle_job-left_by run max_retries requested_start job = ground arith

finished_run-normal :
    (opened : RunRecord) (status : RunStatus) (finished_at : ℕ) (result : GoblinResult)
    (error : Option Message)
    → normalize_persisted_run (finished_run opened status finished_at result error)
      ≡ finished_run opened status finished_at result error
unfolding normalize_persisted_run
finished_run-normal opened status finished_at result error =
    elim (Bool-cases (is_finished status)) [ inl e ↦ rw e refl | inr e ↦ rw e refl ]

settled_by :
    (opened : RunRecord) (owner : String) (max_retries requested_start : ℕ) (status : RunStatus)
    (finished_at : ℕ) (result : GoblinResult) (store store' : Store) (made : AttemptFinalization)
    (row : JobRecord)
    → finalize_attempt
        (finished_run opened status finished_at result result.error)
        (final_status status (is_retrying status opened.attempt max_retries))
        result.error
        (if is_retrying status opened.attempt max_retries then some requested_start else none)
        owner
        store
      ≡ ok (store', made)
    → job_row opened.job_id store ≡ some row
    → owns_attempt opened owner row ≡ true
    → (made.run.attempt ≡ opened.attempt)
      × (job_row opened.job_id store' ≡ some (left_by made.run max_retries requested_start row))
unfolding owns_attempt
settled_by opened owner max_retries requested_start status finished_at result store store' made row
      h found owns =
    let finished = finished_run opened status finished_at result result.error in
    let (job, found', recorded) =
      finalize_attempt-Recorded finished
        (final_status status (is_retrying status opened.attempt max_retries)) result.error
        (if is_retrying status opened.attempt max_retries then some requested_start else none) owner
        store store' made h in
    let made_is : made.run ≡ finished =
      recorded.run_made ∙ finished_run-normal opened status finished_at result result.error in
    let same_job : job ≡ row = ground arith in
    let settle =
      settle_job (final_status status (is_retrying status opened.attempt max_retries)) result.error
        (if is_retrying status opened.attempt max_retries then some requested_start else none) in
    let at_row : job_row opened.job_id store'
        ≡ some (if owns_attempt opened owner row then settle row else row) =
      subst
        (λ j.
          job_row opened.job_id store' ≡ some (if owns_attempt opened owner j then settle j else j))
        same_job recorded.job_after in
    (
      ap (λ r. r.attempt) made_is,
      at_row
          ∙ ap (λ (b : Bool). some (if b then settle row else row)) owns
          ∙ ap some (settle_job-left_by finished max_retries requested_start row)
          ∙ ap (λ r. some (left_by r max_retries requested_start row)) (sym made_is),
    )

module _ {N F : Type 0} (outside : Outside N F) (scheduler : Scheduler) (job : JobRecord)
    (opened : RunRecord) (began requested_start : ℕ) (result : GoblinResult) where
  -- The conclusion of an attempt that returns a run has settled the attempt's job by that run, if
  -- the attempt held the job when the conclusion began: free of the lease, with the run's error, put
  -- up for a retry at once if the run failed and the attempt is within the retries, and else with the
  -- run's status and its own due time.
  pub conclude_attempt-left_by :
      (world world' : World) (run : RunRecord) (row : JobRecord)
      → Returns
          (conclude_attempt outside scheduler job opened began requested_start result)
          world
          world'
          run
      → job_row opened.job_id world.store ≡ some row
      → owns_attempt opened scheduler.worker_id row ≡ true
      → (run.attempt ≡ opened.attempt)
        × (job_row opened.job_id world'.store
            ≡ some (left_by run job.max_retries requested_start row))
  unfolding conclude_attempt owns_attempt same_jobs
  conclude_attempt-left_by world world' run row h found owns =
      let (w1, finished_at, stamped, h1) = bind-Returns _ _ world world' run h in
      let kept1 =
        Keeps-Returns (finish_attempt_timestamp-same_jobs outside job.id opened.started_at)
          stamped in
      let (w2, ended, drawn, h2) = bind-Returns _ _ w1 world' run h1 in
      let kept2 = Keeps-Returns {order = same_jobs} (Keeps-draw outside.monotonic) drawn in
      let (w3, made, recorded, h3) = bind-Returns _ _ w2 world' run h2 in
      let (w4, _, told, h4) = then-Returns _ _ w3 world' run h3 in
      let kept3 =
        Keeps-Returns {order = same_jobs} (Keeps-when _ (emit-same_jobs outside _)) told in
      let (is_run, same) = done-Returns made.run w4 world' run h4 in
      let status = status_for_result result (ended - began) job.timeout_seconds in
      let result' = with_timeout_error status job.timeout_seconds result in
      let found2 : job_row opened.job_id w2.store ≡ some row =
        ap (λ jobs. get_row job_key opened.job_id jobs) (kept2 ∙ kept1) ∙ found in
      let (attempt, settled) =
        settled_by opened scheduler.worker_id job.max_retries requested_start status finished_at
          result' w2.store w3.store made row (transact-Returns _ w2 w3 made recorded) found2 owns in
      let after = ap (λ jobs. get_row job_key opened.job_id jobs) kept3 ∙ settled in
      let ended_in : w4 ≡ world' = same in
      (
        ap (λ (r : RunRecord). r.attempt) (sym is_run) ∙ attempt,
        subst
            (λ w.
              job_row opened.job_id w.store
              ≡ some (left_by run job.max_retries requested_start row))
            ended_in
            (after ∙ ap (λ r. some (left_by r job.max_retries requested_start row)) is_run),
      )
