-- ===== src/Scheduler/Terminal/Passed.antt =====
-- A whole pass leaves terminal jobs alone (run_once of scheduler.py).
use goblin_king.Base.{
  ℕ, zero, suc, String, eq_iff, ◌≡◌, subst, true, Option, none, some, List, [], ◌∷◌, Result, ok,
  raise, arith, Option-cases, Result-cases, inl, inr,
}
use goblin_king.Contracts.{
  JobRecord, RunRecord, ScheduleRecord, is_terminal, HeartbeatOwner, HeartbeatRecord, field, str,
  end,
}
use goblin_king.Policies.{ResourcePolicy, PolicyError}
use goblin_king.Table.{insert_row}
use goblin_king.Table.Laws.{IsKeyed, get_row-insert_row, insert_row-eq_some, insert_row-IsKeyed}
use goblin_king.Store.{Store}
use goblin_king.Store.Jobs.{job_key, save_job}
use goblin_king.Store.Jobs.Lookup.{job_row, HasJobIds}
use goblin_king.Store.Schedules.{update_schedule_after_materialize}
use goblin_king.Scheduler.Action.{
  Action, World, SchedulerError, superseded, store_error, policy_error, registry_error, disappeared,
  key_error, not_terminal, other_error, ◌>>=◌, ◌>>◌, done, only_store,
}
use goblin_king.Scheduler.Action.Keeps.{
  Preorder, Keeps, Keeps-bind, Keeps-then, Keeps-done, Keeps-fail, Keeps-draw, Keeps-query,
  Keeps-returned, Keeps-change, Keeps-transact, Keeps-attempt, Keeps-weaken,
}
use goblin_king.Scheduler.Action.Returns.{Returns, along-bind, Keeps-Returns}
use goblin_king.Scheduler.Environment.{Outside, Scheduler, mode_text}
use goblin_king.Scheduler.Events.{heartbeat}
use goblin_king.Scheduler.Claims.{claim_runnable}
use goblin_king.Scheduler.SameJobs.{same_jobs, emit-same_jobs, heartbeat-same_jobs}
use goblin_king.Scheduler.Materialize.{
  queue_scheduled, time_found, materialize_under, materialize_schedule, materialize_each,
  materialize_due_schedules,
}
use goblin_king.Scheduler.Refine.{IsTame, execute_claimed_job-Moves}
use goblin_king.Scheduler.Pass.{enter_leases, reconcile, run_each, run_once}
use goblin_king.Scheduler.Failures.{record_unexpected_job_failure}
use goblin_king.Scheduler.Terminal.{KeepsTerminal, terminal_kept, moves-terminal}
use goblin_king.Scheduler.Terminal.Failed.{record_unexpected_job_failure-terminal}
use goblin_king.Scheduler.Terminal.Claimed.{claim_runnable-terminal}

-- Jobs are only added, under new ids.
abbrev AddsJobs : Store → Store → Type 0
AddsJobs store store' = KeepsTerminal store store' × (HasJobIds store → HasJobIds store')

adds : Preorder
adds = record {
  R = AddsJobs;
  reflexive = λ store. (λ job_id job found ended. found, λ ids. ids);
  transitive = λ a b c first second. (
    λ job_id job found ended. second.0 job_id job (first.0 job_id job found ended) ended,
    λ ids. second.1 (first.1 ids),
  );
}

same_jobs-adds : {A : Type 0} {m : Action A} → Keeps same_jobs m → Keeps adds m
unfolding adds same_jobs
same_jobs-adds kept =
    Keeps-weaken
      (λ store store' same. (λ job_id job found ended. rw same found, λ ids. rw same ids)) kept

adds-terminal : {A : Type 0} {m : Action A} → Keeps adds m → Keeps terminal_kept m
unfolding adds terminal_kept
adds-terminal kept = Keeps-weaken (λ store store' both. both.0) kept

adds-ids :
    {A : Type 0} {m : Action A} {world world' : World} {a : A}
    → Keeps adds m
    → Returns m world world' a
    → HasJobIds world.store
    → HasJobIds world'.store
unfolding adds
adds-ids kept h ids = (Keeps-Returns {order = adds} kept h).1 ids

save_job-AddsJobs :
    (job : JobRecord) (store store' : Store)
    → save_job job store ≡ ok store'
    → AddsJobs store store'
unfolding save_job
save_job-AddsJobs job store store' h = elim (Option-cases (insert_row job_key job store.jobs)) [
  | inl taken ↦ absurd (ground arith)
  | inr (jobs, added) ↦
      let (free, _) = insert_row-eq_some job_key job store.jobs jobs added in
      let seen = λ (k : String). get_row-insert_row job_key k job store.jobs jobs added in
      let same : jobs ≡ store'.jobs = ground arith in
      (
        λ job_id old found ended. let at = seen job_id in ground (arith, eq_iff job.id job_id),
        λ ids.
            subst (λ rows. IsKeyed job_key rows) same
              (insert_row-IsKeyed job_key job store.jobs jobs added ids),
      )
]

saved_only :
    (job : JobRecord) (store store' : Store) (u : Unit {0})
    → only_store (save_job job store) ≡ ok (store', u)
    → save_job job store ≡ ok store'
saved_only job store store' u h = elim (Result-cases (save_job job store)) [
  | inl (saved, e) ↦ ground arith
  | inr (x, e) ↦ ground arith
]

module _ {N F : Type 0} (outside : Outside N F) (scheduler : Scheduler) (current : ℕ) where
  time_found-adds :
      (schedule : ScheduleRecord) (next : Option ℕ)
      → Keeps adds (time_found outside scheduler schedule next)
  time_found-adds schedule none = Keeps-fail _
  time_found-adds schedule (some next) = Keeps-done next

  queue_scheduled-adds :
      (schedule : ScheduleRecord) (job : JobRecord)
      → Keeps adds (queue_scheduled outside scheduler current schedule job)
  unfolding queue_scheduled adds update_schedule_after_materialize
  queue_scheduled-adds schedule job =
      Keeps-then
        (Keeps-transact _ (λ store store' u h.
          save_job-AddsJobs job store store' (saved_only job store store' u h)))
        (Keeps-bind (time_found-adds schedule _) (λ next.
          Keeps-then (Keeps-change _ (λ store. (λ job_id row found ended. found, λ ids. ids)))
            (Keeps-then (same_jobs-adds (emit-same_jobs outside _)) (Keeps-done job))))

  materialize_under-adds :
      (schedule : ScheduleRecord) (job : JobRecord)
      (policy : Result PolicyError (Option ResourcePolicy))
      → Keeps adds (materialize_under outside scheduler current schedule job policy)
  unfolding materialize_under
  materialize_under-adds schedule job (ok policy) =
      Keeps-bind (queue_scheduled-adds schedule _) (λ saved. Keeps-done _)
  materialize_under-adds schedule job (raise e) =
      Keeps-then (same_jobs-adds (emit-same_jobs outside _)) (Keeps-done none)

  materialize_each-adds :
      (schedules : List ScheduleRecord)
      → Keeps adds (materialize_each outside scheduler current schedules)
  unfolding materialize_each materialize_schedule
  materialize_each-adds [] = Keeps-done []
  materialize_each-adds (schedule ∷ schedules) =
      Keeps-bind
        (Keeps-bind (Keeps-returned _ _) (λ definition.
          Keeps-bind (Keeps-draw outside.uuid4) (λ id. materialize_under-adds schedule _ _)))
        (λ first. Keeps-bind (materialize_each-adds schedules) (λ rest. Keeps-done _))

  materialize_due_schedules-adds : Keeps adds (materialize_due_schedules outside scheduler current)
  unfolding materialize_due_schedules
  materialize_due_schedules-adds = Keeps-bind (Keeps-query _) (λ due. materialize_each-adds due)

module _ {N F : Type 0} (outside : Outside N F) (tame : IsTame outside) (scheduler : Scheduler)
    (current : ℕ) where
  recorded :
      (job : JobRecord) (error : SchedulerError)
      → Keeps terminal_kept (
          record_unexpected_job_failure outside scheduler.worker_id job current error >>= λ run.
          done (some run))
  recorded job error =
      Keeps-bind
        (record_unexpected_job_failure-terminal outside scheduler.worker_id job current error)
        (λ run. Keeps-done (some run))

  reconcile-terminal :
      (job : JobRecord) (result : Result SchedulerError RunRecord)
      → Keeps terminal_kept (reconcile outside scheduler job current result)
  unfolding reconcile
  reconcile-terminal job (ok run) = Keeps-done (some run)
  reconcile-terminal job (raise (superseded _)) = Keeps-done none
  reconcile-terminal job (raise (store_error e)) = recorded job (store_error e)
  reconcile-terminal job (raise (policy_error e)) = recorded job (policy_error e)
  reconcile-terminal job (raise (registry_error e)) = recorded job (registry_error e)
  reconcile-terminal job (raise (disappeared e)) = recorded job (disappeared e)
  reconcile-terminal job (raise (key_error e)) = recorded job (key_error e)
  reconcile-terminal job (raise (not_terminal e)) = recorded job (not_terminal e)
  reconcile-terminal job (raise (other_error e)) = recorded job (other_error e)

  run_each-terminal :
      (jobs : List JobRecord) → Keeps terminal_kept (run_each outside scheduler current jobs)
  unfolding run_each
  run_each-terminal [] = Keeps-done []
  run_each-terminal (job ∷ jobs) =
      Keeps-bind
        (Keeps-attempt
          (moves-terminal (execute_claimed_job-Moves outside tame scheduler job current)))
        (λ result.
          Keeps-bind (reconcile-terminal job result)
            (λ first. Keeps-bind (run_each-terminal jobs) (λ rest. Keeps-done _)))

  enter_leases-terminal :
      (lease_time : ℕ) (jobs : List JobRecord) → Keeps terminal_kept (enter_leases lease_time jobs)
  enter_leases-terminal zero [] = Keeps-done tt
  enter_leases-terminal zero (job ∷ jobs) = Keeps-fail _
  enter_leases-terminal (suc n) jobs = Keeps-done tt

  claim_kept :
      (world : World)
      → HasJobIds world.store
      → terminal_kept.R world.store ((claim_runnable outside scheduler current).run world).0.store
  unfolding terminal_kept
  claim_kept world ids = claim_runnable-terminal outside scheduler current world ids

  run_once-kept :
      (world : World)
      → HasJobIds world.store
      → terminal_kept.R world.store ((run_once outside scheduler current).run world).0.store
  unfolding run_once ◌>>◌
  run_once-kept world ids =
      let beat : Action HeartbeatRecord =
        heartbeat outside scheduler.worker_id HeartbeatOwner.scheduler "running"
          (field "runtime" (str (mode_text scheduler.runtime_mode)) end) in
      let beats : Keeps adds beat = same_jobs-adds (heartbeat-same_jobs outside _ _ _ _) in
      let schedules = materialize_due_schedules outside scheduler current in
      let adds_jobs = materialize_due_schedules-adds outside scheduler current in
      let attempts : List JobRecord → Action (List RunRecord) = λ claimed_jobs.
        enter_leases scheduler.lease_time claimed_jobs
        >> run_each outside scheduler current claimed_jobs in
      let claims : List JobRecord → Action (List RunRecord) =
        λ _. claim_runnable outside scheduler current >>= attempts in
      let work : HeartbeatRecord → Action (List RunRecord) = λ _. schedules >>= claims in
      along-bind terminal_kept beat work world ((adds-terminal beats).along world) (λ w1 _ beaten.
        along-bind terminal_kept schedules claims w1 ((adds-terminal adds_jobs).along w1)
          (λ w2 _ materialized.
            along-bind terminal_kept (claim_runnable outside scheduler current) attempts w2
              (claim_kept w2 (adds-ids adds_jobs materialized (adds-ids beats beaten ids)))
              (λ w3 claimed_jobs is_claimed.
                (Keeps-then (enter_leases-terminal scheduler.lease_time claimed_jobs)
                    (run_each-terminal claimed_jobs)).along
                  w3)))

-- A pass, whether it returns or raises, leaves each job that is completed, failed, timed out or
-- cancelled as it was in every column, where job ids are distinct and the code outside of the model
-- moves jobs by the protocol.
pub run_once-terminal :
    {N F : Type 0} (outside : Outside N F) (scheduler : Scheduler) (current : ℕ) (world : World)
    (job_id : String) (job : JobRecord)
    → IsTame outside
    → HasJobIds world.store
    → job_row job_id world.store ≡ some job
    → is_terminal job.status ≡ true
    → job_row job_id ((run_once outside scheduler current).run world).0.store ≡ some job
unfolding terminal_kept
run_once-terminal outside scheduler current world job_id job tame ids found ended =
    run_once-kept outside tame scheduler current world ids job_id job found ended
