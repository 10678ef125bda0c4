-- ===== src/Scheduler/Limits.antt =====
-- The jobs that a scheduler admits are below the concurrency limits that they carry.
use goblin_king.Base.{ℕ, ◌<◌, ◌≡◌, refl, ◌∙◌, ap, Option, none, some, ok, arith}
use goblin_king.Contracts.{JobRecord}
use goblin_king.Policies.{ResourcePolicy, policy_from_job_metadata}
use goblin_king.Store.{Store}
use goblin_king.Store.Jobs.{count_active_jobs, count_active_project_jobs}
use goblin_king.Scheduler.Action.{World, policy_error, returned, query, on_option}
use goblin_king.Scheduler.Action.Returns.{
  Returns, bind-Returns, then-Returns, done-Returns, query-Returns, returned-Returns,
}
use goblin_king.Scheduler.Environment.{Outside, Scheduler}
use goblin_king.Scheduler.Claims.{
  Deferral, project_limit, goblin_limit, project_deferral, goblin_deferral, or_deferral,
  deferral_of, defer_job, announce_lease, admit_job,
}

-- A count is below a limit that is set.
abbrev pub IsBelow : ℕ → Option ℕ → Type 0
IsBelow count none = Unit
IsBelow count (some limit) = count < limit

-- No limit of the policy is reached by the other active jobs of the project or of the kind.
pub record IsWithinLimits (policy : Option ResourcePolicy) (job : JobRecord) (store : Store)
    : Type 0 where
  pub project :
      IsBelow (count_active_project_jobs job.project_id (some job.id) store) (project_limit policy)
  pub goblin : IsBelow (count_active_jobs job.kind (some job.id) store) (goblin_limit policy)

project-IsBelow :
    (limit : Option ℕ) (job : JobRecord) (store : Store)
    → project_deferral limit job store ≡ none
    → IsBelow (count_active_project_jobs job.project_id (some job.id) store) limit
project-IsBelow none job store h = tt
project-IsBelow (some limit) job store h = ground arith

goblin-IsBelow :
    (limit : Option ℕ) (job : JobRecord) (store : Store)
    → goblin_deferral limit job store ≡ none
    → IsBelow (count_active_jobs job.kind (some job.id) store) limit
goblin-IsBelow none job store h = tt
goblin-IsBelow (some limit) job store h = ground arith

or_deferral-none :
    (first second : Option Deferral)
    → or_deferral first second ≡ none
    → (first ≡ none) × (second ≡ none)
or_deferral-none none second h = (refl, h)
or_deferral-none (some d) second h = ground arith

deferral_of-none :
    (policy : Option ResourcePolicy) (job : JobRecord) (store : Store)
    → deferral_of policy job store ≡ none
    → IsWithinLimits policy job store
unfolding deferral_of
deferral_of-none policy job store h =
    let (first, second) =
      or_deferral-none (project_deferral (project_limit policy) job store)
        (goblin_deferral (goblin_limit policy) job store) h in
    record {
      project = project-IsBelow (project_limit policy) job store first;
      goblin = goblin-IsBelow (goblin_limit policy) job store second;
    }

module _ {N F : Type 0} (outside : Outside N F) (scheduler : Scheduler) (current : ℕ)
    (job : JobRecord) where
  defer_job-none :
      (reason : Deferral) (world world' : World) (admitted : JobRecord)
      → Returns (defer_job outside scheduler current job reason) world world' (some admitted)
      → ⊥
  unfolding defer_job
  defer_job-none reason world world' admitted h =
      let (w1, _, _, h1) = then-Returns _ _ world world' (some admitted) h in
      let (w2, _, _, h2) = then-Returns _ _ w1 world' (some admitted) h1 in
      let (wrong, _) = done-Returns none w2 world' (some admitted) h2 in ground arith

  announce_lease-some :
      (world world' : World) (admitted : JobRecord)
      → Returns (announce_lease outside scheduler job) world world' (some admitted)
      → admitted ≡ job
  unfolding announce_lease
  announce_lease-some world world' admitted h =
      let (w1, until, _, h1) = bind-Returns _ _ world world' (some admitted) h in
      let (w2, _, _, h2) = then-Returns _ _ w1 world' (some admitted) h1 in
      let (same, _) = done-Returns (some job) w2 world' (some admitted) h2 in ground arith

  admitted_by :
      (policy : Option ResourcePolicy) (found : Option Deferral) (world world' : World)
      (admitted : JobRecord)
      → Returns
          (on_option found
            (announce_lease outside scheduler job)
            (defer_job outside scheduler current job))
          world
          world'
          (some admitted)
      → (found ≡ none) × (admitted ≡ job)
  admitted_by policy none world world' admitted h =
      (refl, announce_lease-some world world' admitted h)
  admitted_by policy (some reason) world world' admitted h =
      absurd (defer_job-none reason world world' admitted h)

  -- A job that the scheduler admits carries a readable policy or none, and fewer other jobs of its
  -- project and of its kind are active than the policy's limits, where it sets them.
  pub admit_job-IsWithinLimits :
      (world world' : World) (admitted : JobRecord)
      → Returns (admit_job outside scheduler current job) world world' (some admitted)
      → (admitted ≡ job)
        × (policy : Option ResourcePolicy) × (policy_from_job_metadata outside.codec job.metadata
            ≡ ok policy)
        × IsWithinLimits policy job world.store
  unfolding admit_job
  admit_job-IsWithinLimits world world' admitted h =
      let (w1, policy, read, h1) =
        bind-Returns (returned policy_error (policy_from_job_metadata outside.codec job.metadata)) _
          world world' (some admitted) h in
      let (is_read, same1) =
        returned-Returns policy_error (policy_from_job_metadata outside.codec job.metadata) world w1
          policy read in
      let (w2, deferral, asked, h2) =
        bind-Returns (query (deferral_of policy job)) _ w1 world' (some admitted) h1 in
      let (is_asked, same2) = query-Returns (deferral_of policy job) w1 w2 deferral asked in
      let (nothing, same) = admitted_by policy deferral w2 world' admitted h2 in
      let here : deferral_of policy job world.store ≡ none =
        ap (λ w. deferral_of policy job w.store) same1 ∙ is_asked ∙ nothing in
      (same, policy, is_read, deferral_of-none policy job world.store here)
