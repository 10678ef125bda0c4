-- ===== src/Scheduler/Refine.antt =====
-- The attempts of a scheduler keep to the protocol of a job (execute_claimed_job, over the store's
-- transactions), whatever other schedulers and callers do while a goblin runs.
use goblin_king.Base.{
  ℕ, ◌+◌, ◌-◌, String, ◌≡◌, refl, Bool, false, Option, none, some, Result, ok, raise, arith,
}
use goblin_king.Contracts.{JobRecord, JobStatus, RunRecord, GoblinResult, Message, is_held}
use goblin_king.Policies.{ResourcePolicy}
use goblin_king.Registry.{RegistryError, GoblinDefinition}
use goblin_king.Store.{Store}
use goblin_king.Store.Jobs.Lookup.{job_row}
use goblin_king.Store.Runs.{finalize_attempt}
use goblin_king.Store.Protocol.{here, JobReach-trans}
use goblin_king.Store.Protocol.Refine.{
  Refines, try_mark_job_running-Refines, finalize_attempt-Refines,
}
use goblin_king.Store.Protocol.History.{Moved, Refines-Moved}
use goblin_king.Scheduler.Action.{Action, World, transact, change}
use goblin_king.Scheduler.Action.Keeps.{
  Preorder, Keeps, Keeps-done, Keeps-fail, Keeps-returned, Keeps-draw, Keeps-bind, Keeps-then,
  Keeps-when, Keeps-attempt, Keeps-transact, Keeps-change, Keeps-if, Keeps-on_option, Keeps-weaken,
}
use goblin_king.Scheduler.SameJobs.{
  same_jobs, emit-same_jobs, audit-same_jobs, finish_attempt_timestamp-same_jobs,
  start_run-same_jobs,
}
use goblin_king.Scheduler.Environment.{Outside, Scheduler, Binding, GoblinContext, is_container}
use goblin_king.Scheduler.Attempts.{opened_run, compacted, final_status, status_for_result}
use goblin_king.Scheduler.Execute.{
  bind_found, bind_job, check_gate, refuse_attempt, run_bound, conclude_attempt, run_attempt,
  lookup_definition, perform_attempt, execute_claimed_job,
}

-- Every job that is there stays, and moves by the protocol; new jobs may come.
abbrev pub Moves : Store → Store → Type 0
Moves store store' =
    (job_id : String) (job : JobRecord) → job_row job_id store ≡ some job → Moved job_id job store'

unfoldable pub moves : Preorder
moves = record {
  R = Moves;
  reflexive = λ store job_id job found. (job, found, here);
  transitive = λ a b c first second job_id job found.
      let (mid, at, reach) = first job_id job found in
      let (last, end, further) = second job_id mid at in (last, end, JobReach-trans reach further);
}

pub same_jobs-moves : {A : Type 0} {m : Action A} → Keeps same_jobs m → Keeps moves m
unfolding moves same_jobs
same_jobs-moves kept =
    Keeps-weaken (λ store store' same job_id job found. (job, rw same found, here)) kept

-- Code outside of the model that runs during an attempt may let others work on the store: by the
-- store's transactions they too move jobs by the protocol.
pub record IsTame {N F : Type 0} (outside : Outside N F) : Type 0 where
  pub get_notebook_goblin : (kind : String) → Keeps moves (outside.get_notebook_goblin kind)
  pub validation_error :
      (binding : Binding N) (job : JobRecord) (policy : Option ResourcePolicy)
      → Keeps moves (outside.validation_error binding job policy)
  pub run_goblin :
      (binding : Binding N) (job : JobRecord) (context : GoblinContext)
      (policy : Option ResourcePolicy)
      → Keeps moves (outside.run_goblin binding job context policy)

pub change-Moves :
    {A : Type 0} (f : Store → Store × A)
    → ((store : Store) → Refines store (f store).0)
    → Keeps moves (change f)
unfolding moves
change-Moves f refines = Keeps-change f (λ store job_id job found.
    Refines-Moved job_id job store (f store).0 found (refines store job_id))

-- A finalisation with a status that holds no lease.
pub finalize_attempt-Moves :
    (run : RunRecord) (status : JobStatus) (error : Option Message) (due_at : Option ℕ)
    (owner : String)
    → is_held status ≡ false
    → Keeps moves (transact (finalize_attempt run status error due_at owner))
unfolding moves
finalize_attempt-Moves run status error due_at owner free =
    Keeps-transact (finalize_attempt run status error due_at owner)
      (λ store store' made h job_id job found.
        Refines-Moved job_id job store store' found
          (finalize_attempt-Refines run status error due_at owner store store' made free h job_id))

final_status-free :
    (result : GoblinResult) (elapsed : ℕ) (timeout_seconds : Option ℕ) (retrying : Bool)
    → is_held (final_status (status_for_result result elapsed timeout_seconds) retrying) ≡ false
unfolding status_for_result
final_status-free result elapsed timeout_seconds retrying = ground arith

module _ {N F : Type 0} (outside : Outside N F) (tame : IsTame outside)
    (scheduler : Scheduler) where
  bind_found-Moves :
      (job : JobRecord) (found : Result RegistryError GoblinDefinition)
      → Keeps moves (bind_found outside scheduler job found)
  unfolding bind_found
  bind_found-Moves job (ok definition) = Keeps-done _
  bind_found-Moves job (raise e) =
      Keeps-bind (tame.get_notebook_goblin job.kind)
        (λ notebook. Keeps-on_option notebook (Keeps-fail _) (λ n. Keeps-done _))

  bind_job-Moves : (job : JobRecord) → Keeps moves (bind_job outside scheduler job)
  unfolding bind_job
  bind_job-Moves job = bind_found-Moves job (lookup_definition outside scheduler job.kind)

  check_gate-Moves :
      (binding : Binding N) (job : JobRecord) (policy : Option ResourcePolicy)
      → Keeps moves (check_gate outside scheduler binding job policy)
  unfolding check_gate
  check_gate-Moves binding job policy =
      Keeps-if (is_container scheduler.runtime_mode)
        (Keeps-bind (Keeps-attempt (tame.validation_error binding job policy))
          (λ checked. Keeps-done _))
        (Keeps-done none)

  run_bound-Moves :
      (binding : Binding N) (job : JobRecord) (context : GoblinContext)
      (policy : Option ResourcePolicy)
      → Keeps moves (run_bound outside scheduler binding job context policy)
  unfolding run_bound
  run_bound-Moves binding job context policy =
      Keeps-if (is_container scheduler.runtime_mode) (tame.run_goblin binding job context policy) (
        Keeps-on_option binding.notebook (tame.run_goblin binding job context policy)
          (λ _. Keeps-done _))

  refuse_attempt-Moves :
      (job : JobRecord) (opened : RunRecord) (error : Message)
      → Keeps moves (refuse_attempt outside scheduler job opened error)
  unfolding refuse_attempt
  refuse_attempt-Moves job opened error =
      Keeps-bind
        (same_jobs-moves (finish_attempt_timestamp-same_jobs outside job.id opened.started_at))
        (λ finished_at. Keeps-bind (finalize_attempt-Moves _ JobStatus.failed _ _ _ refl) (λ made.
          Keeps-then (Keeps-when _ (same_jobs-moves (emit-same_jobs outside _))) (
            Keeps-then (same_jobs-moves (audit-same_jobs outside _ _ _ _ _ _))
              (Keeps-done made.run))))

  conclude_attempt-Moves :
      (job : JobRecord) (opened : RunRecord) (began requested_start : ℕ) (result : GoblinResult)
      → Keeps moves (conclude_attempt outside scheduler job opened began requested_start result)
  unfolding conclude_attempt
  conclude_attempt-Moves job opened began requested_start result =
      Keeps-bind
        (same_jobs-moves (finish_attempt_timestamp-same_jobs outside job.id opened.started_at))
        (λ finished_at. Keeps-bind (Keeps-draw outside.monotonic) (λ ended.
          Keeps-bind
            (finalize_attempt-Moves _ _ _ _ _
              (final_status-free result (ended - began) job.timeout_seconds _))
            (λ made.
              Keeps-then (Keeps-when _ (same_jobs-moves (emit-same_jobs outside _)))
                (Keeps-done made.run))))

  run_attempt-Moves :
      (binding : Binding N) (job : JobRecord) (context : GoblinContext)
      (policy : Option ResourcePolicy) (attempt started_at requested_start began : ℕ)
      → Keeps moves (
          run_attempt outside scheduler binding job context policy attempt started_at
            requested_start began)
  unfolding run_attempt
  run_attempt-Moves binding job context policy attempt started_at requested_start began =
      Keeps-then (same_jobs-moves (start_run-same_jobs outside _)) (
        Keeps-bind (run_bound-Moves binding job context policy) (λ result.
          conclude_attempt-Moves job
            (opened_run context.run_id job.kind job attempt started_at (compacted outside policy))
            began requested_start result))

  perform_attempt-Moves :
      (job : JobRecord) (attempt started_at requested_start began : ℕ)
      → Keeps moves (perform_attempt outside scheduler job attempt started_at requested_start began)
  unfolding perform_attempt
  perform_attempt-Moves job attempt started_at requested_start began =
      Keeps-bind (bind_job-Moves job) (λ binding. Keeps-bind (Keeps-draw outside.uuid4) (λ run_id.
        Keeps-bind (Keeps-draw outside.utc_now) (λ context_time.
          Keeps-bind (Keeps-returned _ _) (λ policy.
            Keeps-bind (check_gate-Moves binding job policy) (λ refusal.
              Keeps-on_option refusal
                (run_attempt-Moves binding job _ policy attempt started_at requested_start began)
                (λ error.
                  refuse_attempt-Moves job
                    (opened_run run_id binding.definition.kind job attempt started_at
                      (compacted outside policy))
                    error))))))

  -- An attempt that returns or raises has moved every job by the protocol, whatever others did to
  -- the store in the meantime by the protocol.
  pub execute_claimed_job-Moves :
      (job : JobRecord) (requested_start : ℕ)
      → Keeps moves (execute_claimed_job outside scheduler job requested_start)
  unfolding execute_claimed_job
  execute_claimed_job-Moves job requested_start =
      Keeps-bind
        (change-Moves _
          (try_mark_job_running-Refines job.id (job.attempt_count + 1) scheduler.worker_id))
        (λ started. Keeps-then (Keeps-if started (Keeps-done tt) (Keeps-fail _)) (
          Keeps-bind (same_jobs-moves (emit-same_jobs outside _)) (λ running_event.
            Keeps-bind (Keeps-draw outside.monotonic) (λ began.
              perform_attempt-Moves job (job.attempt_count + 1) _ requested_start began))))

-- An attempt, whether it returns or raises, leaves each job of the store there, some moves of the
-- protocol further, where the code outside of the model moves jobs by the protocol.
pub execute_claimed_job-Moved :
    {N F : Type 0} (outside : Outside N F) (scheduler : Scheduler) (job : JobRecord)
    (requested_start : ℕ) (world : World) (job_id : String) (row : JobRecord)
    → IsTame outside
    → job_row job_id world.store ≡ some row
    → Moved job_id row
        ((execute_claimed_job outside scheduler job requested_start).run world).0.store
unfolding moves
execute_claimed_job-Moved outside scheduler job requested_start world job_id row tame found =
    (execute_claimed_job-Moves outside tame scheduler job requested_start).along world job_id row
      found
