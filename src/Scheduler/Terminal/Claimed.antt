-- ===== src/Scheduler/Terminal/Claimed.antt =====
-- The scheduler's claim leaves terminal jobs alone: it defers only jobs that it has just leased.
use goblin_king.Base.{
  ℕ, ◌+◌, String, ◌≡◌, refl, sym, subst, Option, none, some, List, [], ◌∷◌, All, All-map,
  All-of-map,
}
use goblin_king.Contracts.{JobRecord, JobStatus}
use goblin_king.Store.{Store}
use goblin_king.Store.Jobs.{claim_due_jobs, due_rows, lease_job, row_to_job}
use goblin_king.Store.Jobs.Lookup.{job_row, HasJobIds}
use goblin_king.Store.Jobs.Claim.{claim_due_jobs-claimed, selected_after}
use goblin_king.Store.Protocol.Refine.{claim_due_jobs-Refines}
use goblin_king.Store.Protocol.History.{Refines-Moved}
use goblin_king.Scheduler.Action.{Action, World, ◌>>=◌, change}
use goblin_king.Scheduler.Action.Keeps.{
  Preorder, Keeps, Keeps-bind, Keeps-then, Keeps-done, Keeps-fail, Keeps-query, Keeps-returned,
  Keeps-change, Keeps-on_option, Keeps-weaken,
}
use goblin_king.Scheduler.Environment.{Outside, Scheduler}
use goblin_king.Scheduler.SameJobs.{same_jobs, emit-same_jobs}
use goblin_king.Scheduler.Claims.{
  Deferral, deferral_of, defer_job, announce_lease, lease_text, admit_job, admit_each,
  claim_runnable,
}
use goblin_king.Scheduler.Terminal.{
  KeepsTerminal, Moves-terminal, IsOpen, finish_job-terminal, finish_job-IsOpen,
}

-- The claimed jobs of a list are open, and stay so while terminal jobs are left alone.
abbrev AreOpen : List JobRecord → Store → Type 0
AreOpen claimed store = All (λ job. IsOpen store job.id) claimed

abbrev Defers : List JobRecord → Store → Store → Type 0
Defers claimed store store' =
    AreOpen claimed store → AreOpen claimed store' × KeepsTerminal store store'

defers : List JobRecord → Preorder
defers claimed = record {
  R = Defers claimed;
  reflexive = λ store opens. (opens, λ job_id job found ended. found);
  transitive = λ a b c first second opens.
      let (opens_b, kept) = first opens in
      let (opens_c, kept') = second opens_b in
      (opens_c, λ job_id job found ended. kept' job_id job (kept job_id job found ended) ended);
}

same_jobs-Defers :
    (claimed : List JobRecord) {A : Type 0} {m : Action A}
    → Keeps same_jobs m
    → Keeps (defers claimed) m
unfolding defers same_jobs
same_jobs-Defers claimed kept =
    Keeps-weaken
      (λ store store' same opens. (
        subst
            (λ jobs.
              All (λ (job : JobRecord). IsOpen (record store { jobs = jobs }) job.id) claimed)
            (sym same) opens,
        λ job_id job found ended. rw same found,
      ))
      kept

-- A job that is open whenever the claimed ones are.
abbrev Covers : List JobRecord → JobRecord → Type 0
Covers claimed job = (store : Store) → AreOpen claimed store → IsOpen store job.id

All-Covers : (claimed : List JobRecord) → All (Covers claimed) claimed
All-Covers [] = tt
All-Covers (job ∷ claimed) = (
  λ store opens. opens.0,
  All-map (Covers claimed) (Covers (job ∷ claimed))
      (λ other covers store opens. covers store opens.1) claimed (All-Covers claimed),
)

module _ {N F : Type 0} (outside : Outside N F) (scheduler : Scheduler) (current : ℕ)
    (claimed : List JobRecord) where
  defer_job-Defers :
      (job : JobRecord) (reason : Deferral)
      → Covers claimed job
      → Keeps (defers claimed) (defer_job outside scheduler current job reason)
  unfolding defer_job defers
  defer_job-Defers job reason covers =
      Keeps-then
        (Keeps-change _ (λ store opens. (
          All-map (λ (other : JobRecord). IsOpen store other.id) _
              (λ other.
                finish_job-IsOpen job.id JobStatus.queued (some reason.message) (some current) store
                  other.id refl)
              claimed opens,
          finish_job-terminal job.id JobStatus.queued (some reason.message) (some current) store
              (covers store opens),
        )))
        (Keeps-then (same_jobs-Defers claimed (emit-same_jobs outside _)) (Keeps-done none))

  lease_text-Defers :
      (until : Option ℕ) → Keeps (defers claimed) (lease_text outside scheduler until)
  lease_text-Defers none = Keeps-fail _
  lease_text-Defers (some until) = Keeps-done _

  announce_lease-Defers :
      (job : JobRecord) → Keeps (defers claimed) (announce_lease outside scheduler job)
  unfolding announce_lease
  announce_lease-Defers job = Keeps-bind (lease_text-Defers job.leased_until) (λ leased_until.
      Keeps-then (same_jobs-Defers claimed (emit-same_jobs outside _)) (Keeps-done (some job)))

  admit_job-Defers :
      (job : JobRecord)
      → Covers claimed job
      → Keeps (defers claimed) (admit_job outside scheduler current job)
  unfolding admit_job
  admit_job-Defers job covers = Keeps-bind (Keeps-returned _ _) (λ policy.
      Keeps-bind (Keeps-query (deferral_of policy job)) (λ deferral.
        Keeps-on_option deferral (announce_lease-Defers job)
          (λ reason. defer_job-Defers job reason covers)))

  admit_each-Defers :
      (jobs : List JobRecord)
      → All (Covers claimed) jobs
      → Keeps (defers claimed) (admit_each outside scheduler current jobs)
  unfolding admit_each
  admit_each-Defers [] covers = Keeps-done []
  admit_each-Defers (job ∷ jobs) covers =
      Keeps-bind (admit_job-Defers job covers.0)
        (λ first. Keeps-bind (admit_each-Defers jobs covers.1) (λ rest. Keeps-done _))

-- The jobs that a claim returns are leased, hence open.
claimed_open :
    (worker_id : String) (now lease_until limit : ℕ) (store : Store)
    → HasJobIds store
    → AreOpen
        (claim_due_jobs worker_id now lease_until limit store).1
        (claim_due_jobs worker_id now lease_until limit store).0
claimed_open worker_id now lease_until limit store ids =
    let (exactly, _, _) = claim_due_jobs-claimed worker_id now lease_until limit store ids in
    let store' = (claim_due_jobs worker_id now lease_until limit store).0 in
    let leased : JobRecord → JobRecord = λ row. row_to_job (lease_job worker_id lease_until row) in
    subst (λ claimed. AreOpen claimed store') (sym exactly)
      (All-of-map (λ job. IsOpen store' job.id) leased (due_rows now limit store.jobs)
        (All-map
          (λ (row : JobRecord). job_row row.id store' ≡ some (lease_job worker_id lease_until row))
          (λ row. IsOpen store' (leased row).id)
          (λ row at. unfold lease_job in (lease_job worker_id lease_until row, at, refl))
          (due_rows now limit store.jobs)
          (selected_after worker_id now lease_until limit store ids)))

pub claim_runnable-terminal :
    {N F : Type 0} (outside : Outside N F) (scheduler : Scheduler) (current : ℕ) (world : World)
    → HasJobIds world.store
    → KeepsTerminal world.store ((claim_runnable outside scheduler current).run world).0.store
unfolding claim_runnable ◌>>=◌ change defers
claim_runnable-terminal outside scheduler current world ids =
    let claim =
      claim_due_jobs scheduler.worker_id current (current + scheduler.lease_time)
        scheduler.claim_limit world.store in
    let opens =
      claimed_open scheduler.worker_id current (current + scheduler.lease_time)
        scheduler.claim_limit world.store ids in
    let world' : World = record world { store = claim.0 } in
    let (_, rest) =
      (admit_each-Defers outside scheduler current claim.1 claim.1 (All-Covers claim.1)).along
        world' opens in
    let first = Moves-terminal world.store claim.0 (λ job_id job found.
      Refines-Moved job_id job world.store claim.0 found (
        claim_due_jobs-Refines scheduler.worker_id current (current + scheduler.lease_time)
          scheduler.claim_limit world.store job_id)) in
    λ job_id job found ended. rest job_id job (first job_id job found ended) ended
