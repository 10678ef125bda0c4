-- ===== src/Scheduler/Claims.antt =====
-- The scheduler's claim: leased jobs, less those that a concurrency policy defers (claim_due_jobs of
-- scheduler.py).
use goblin_king.Base.{ℕ, ◌+◌, String, Option, none, some, List, [], ◌∷◌, leb, if◌then◌else◌}
use goblin_king.Contracts.{
  Json, str, end, field, JobRecord, JobStatus, Message, deferred_project, deferred_goblin,
}
use goblin_king.Policies.{ResourcePolicy, policy_from_job_metadata}
use goblin_king.Store.{Store}
use goblin_king.Store.Jobs.{
  claim_due_jobs, count_active_jobs, count_active_project_jobs, finish_job,
}
use goblin_king.Scheduler.Action.{
  Action, policy_error, other_error, ◌>>=◌, ◌>>◌, done, fail, returned, query, change, on_option,
}
use goblin_king.Scheduler.Environment.{Scheduler, Outside}
use goblin_king.Scheduler.Events.{emit, job_emission}

-- The limit that is reached, with the message and the words of the event.
pub record Deferral : Type 0 where
  pub scope : String
  pub limit_name : String
  pub limit : ℕ
  pub active_count : ℕ
  pub message : Message

abbrev pub project_limit : Option ResourcePolicy → Option ℕ
project_limit none = none
project_limit (some policy) = policy.concurrency.max_project_running

abbrev pub goblin_limit : Option ResourcePolicy → Option ℕ
goblin_limit none = none
goblin_limit (some policy) = policy.concurrency.max_running

-- `active_count >= max_project_running`, where there is a limit.
abbrev pub project_deferral : Option ℕ → JobRecord → Store → Option Deferral
project_deferral none job store = none
project_deferral (some limit) job store =
    let active = count_active_project_jobs job.project_id (some job.id) store in
    if leb limit active
    then some (record {
      scope = "project";
      limit_name = "max_project_running";
      limit = limit;
      active_count = active;
      message = deferred_project active limit;
    })
    else none

abbrev pub goblin_deferral : Option ℕ → JobRecord → Store → Option Deferral
goblin_deferral none job store = none
goblin_deferral (some limit) job store =
    let active = count_active_jobs job.kind (some job.id) store in
    if leb limit active
    then some (record {
      scope = "goblin";
      limit_name = "max_running";
      limit = limit;
      active_count = active;
      message = deferred_goblin active limit;
    })
    else none

-- The project's limit comes first.
abbrev pub or_deferral : Option Deferral → Option Deferral → Option Deferral
or_deferral none second = second
or_deferral (some first) second = some first

unfoldable pub deferral_of : Option ResourcePolicy → JobRecord → Store → Option Deferral
deferral_of policy job store =
    or_deferral (project_deferral (project_limit policy) job store)
      (goblin_deferral (goblin_limit policy) job store)

module _ {N F : Type 0} (outside : Outside N F) (scheduler : Scheduler) where
  -- A deferred job goes back to the queue.
  unfoldable pub defer_job : (current : ℕ) → JobRecord → Deferral → Action (Option JobRecord)
  defer_job current job deferral = do
    change (λ store.
        (finish_job job.id JobStatus.queued (some deferral.message) (some current) store, tt {0}))
    emit outside (
        job_emission scheduler.worker_id "resource_policy.concurrency_deferred" job none
          (field "kind" (str job.kind) (
            field "scope" (str deferral.scope) (
              field deferral.limit_name (outside.number deferral.limit) (
                field "active_count" (outside.number deferral.active_count)
                  (field "reason" (str (outside.message_text deferral.message)) end)))))
          none)
    done none

  -- `job.leased_until.isoformat()`
  abbrev pub lease_text : Option ℕ → Action Json
  lease_text none = fail (other_error "leased_until")
  lease_text (some until) = done (outside.isoformat until)

  unfoldable pub announce_lease : JobRecord → Action (Option JobRecord)
  announce_lease job = do
    leased_until ← lease_text job.leased_until
    emit outside (
        job_emission scheduler.worker_id "job.leased" job none
          (field "kind" (str job.kind) (field "leased_until" leased_until end))
          (some job.created_at))
    done (some job)

  -- One turn of the loop over the claimed jobs: the job if it may run.
  unfoldable pub admit_job : (current : ℕ) → JobRecord → Action (Option JobRecord)
  unfolding defer_job announce_lease
  admit_job current job = do
    policy ← returned policy_error (policy_from_job_metadata outside.codec job.metadata)
    deferral ← query (deferral_of policy job)
    on_option deferral (announce_lease job) (defer_job current job)

  abbrev pub and_runnable : Option JobRecord → List JobRecord → List JobRecord
  and_runnable none jobs = jobs
  and_runnable (some job) jobs = job ∷ jobs

  unfoldable pub admit_each : (current : ℕ) → List JobRecord → Action (List JobRecord)
  unfolding admit_job
  admit_each current [] = done []
  admit_each current (job ∷ jobs) = do
    first ← admit_job current job
    rest ← admit_each current jobs
    done (and_runnable first rest)

  unfoldable pub claim_runnable : (current : ℕ) → Action (List JobRecord)
  unfolding admit_each
  claim_runnable current = do
    jobs ← change (
        claim_due_jobs scheduler.worker_id current (current + scheduler.lease_time)
          scheduler.claim_limit)
    admit_each current jobs
