-- ===== src/Store/Protocol/Refine.antt =====
-- Every transaction of the store moves each job by the protocol, or leaves it alone.
use mathlib.Core.Option
use goblin_king.Base.{
  ℕ, String, ◌==◌, eq_iff, ◌≡◌, refl, sym, subst, Bool, true, false, not, ◌&&◌, Option, none, some,
  List, [], ◌∷◌, arith, if◌then◌else◌, Bool-cases, inl, inr, ok,
}
use goblin_king.Contracts.{JobRecord, JobStatus, Message, RunRecord, is_terminal, is_held}
use goblin_king.Table.{get_row, update_where}
use goblin_king.Store.State.{Store}
use goblin_king.Store.Jobs.{
  job_key, update_job, claim_rows, claim_due_jobs, try_renew_job_lease, try_mark_job_running,
  try_cancel_job, is_claimable, lease_job, may_renew, renew_job, may_start, start_job, stop_job,
  due_rows,
}
use goblin_king.Store.Jobs.Lookup.{job_row, job_row-update_job}
use goblin_king.Table.Laws.{get_row-update_where}
use goblin_king.Store.Runs.{owns_attempt, finalize_attempt, AttemptFinalization}
use goblin_king.Store.Runs.Finalize.{finalize_attempt-Recorded}
use goblin_king.Store.Protocol.{
  JobStep, claim, renew, start, settle, cancel, JobReach, here, next, JobReach-trans,
}

-- From one state of a row to a later one: rows neither appear nor vanish.
abbrev pub Follows : Option JobRecord → Option JobRecord → Type 0
Follows none none = Unit
Follows none (some _) = ⊥
Follows (some _) none = ⊥
Follows (some a) (some b) = JobReach a b

pub Follows-refl : (a : Option JobRecord) → Follows a a
Follows-refl none = tt
Follows-refl (some a) = here

pub Follows-trans : (a b c : Option JobRecord) → Follows a b → Follows b c → Follows a c
Follows-trans none none none p q = tt
Follows-trans none none (some c) p q = q
Follows-trans none (some b) c p q = absurd p
Follows-trans (some a) none c p q = absurd p
Follows-trans (some a) (some b) none p q = q
Follows-trans (some a) (some b) (some c) p q = JobReach-trans p q

-- An UPDATE whose test admits the change as a move of the protocol.
Follows-change :
    (test : JobRecord → Bool) (change : JobRecord → JobRecord) (row : Option JobRecord)
    → ((job : JobRecord) → test job ≡ true → JobStep job (change job))
    → Follows row (Option.map (λ job. if test job then change job else job) row)
Follows-change test change none h = tt
Follows-change test change (some job) h = elim (Bool-cases (test job)) [
  | inl e ↦ rw e (next here (h job e))
  | inr e ↦ rw e here
]

abbrev pub Refines : Store → Store → Type 0
Refines store store' = (job_id : String) → Follows (job_row job_id store) (job_row job_id store')

pub Refines-refl : (store : Store) → Refines store store
Refines-refl store k = Follows-refl (job_row k store)

pub Refines-trans : (a b c : Store) → Refines a b → Refines b c → Refines a c
Refines-trans a b c p q k = Follows-trans (job_row k a) (job_row k b) (job_row k c) (p k) (q k)

and-right : (a b : Bool) → (a && b) ≡ true → b ≡ true
and-right a b h = ground arith

update_job-Refines :
    (job_id : String) (test : JobRecord → Bool) (change : JobRecord → JobRecord) (store : Store)
    → ((job : JobRecord) → (change job).id ≡ job.id)
    → ((job : JobRecord) → test job ≡ true → JobStep job (change job))
    → Refines store (update_job job_id test change store).0
update_job-Refines job_id test change store keeps h k =
    rw (job_row-update_job job_id test change store keeps k) (
      Follows-change (λ job. job.id == job_id && test job) change (job_row k store)
        (λ job e. h job (and-right (job.id == job_id) (test job) e)))

lease_job-id : (w : String) (u : ℕ) (job : JobRecord) → (lease_job w u job).id ≡ job.id
unfolding lease_job
lease_job-id w u job = refl

claim_rows-Follows :
    (worker_id : String) (now lease_until : ℕ) (rows jobs : List JobRecord) (k : String)
    → Follows
        (get_row job_key k jobs)
        (get_row job_key k (claim_rows worker_id now lease_until rows jobs).0)
unfolding claim_rows
claim_rows-Follows w n u [] jobs k = Follows-refl (get_row job_key k jobs)
claim_rows-Follows w n u (row ∷ rows) jobs k =
    let chosen : JobRecord → Bool = λ job. job.id == row.id && is_claimable n job in
    let jobs' = update_where chosen (lease_job w u) jobs in
    let first : Follows (get_row job_key k jobs) (get_row job_key k jobs') =
      rw
        (get_row-update_where job_key k chosen (lease_job w u) jobs (λ job _. lease_job-id w u job))
        (Follows-change chosen (lease_job w u) (get_row job_key k jobs)
          (λ job e. claim w n u (and-right (job.id == row.id) (is_claimable n job) e))) in
    let rest = claim_rows-Follows w n u rows jobs' k in
    let whole =
      Follows-trans (get_row job_key k jobs) (get_row job_key k jobs')
        (get_row job_key k (claim_rows w n u rows jobs').0) first rest in
    ground arith

-- A claim moves jobs only by claims.
pub claim_due_jobs-Refines :
    (worker_id : String) (now lease_until limit : ℕ) (store : Store)
    → Refines store (claim_due_jobs worker_id now lease_until limit store).0
unfolding claim_due_jobs
claim_due_jobs-Refines w n u l store k =
    claim_rows-Follows w n u (due_rows n l store.jobs) store.jobs k

pub try_renew_job_lease-Refines :
    (job_id owner : String) (lease_until : ℕ) (store : Store)
    → Refines store (try_renew_job_lease job_id owner lease_until store).0
unfolding try_renew_job_lease renew_job
try_renew_job_lease-Refines job_id owner u store =
    update_job-Refines job_id (may_renew owner) (renew_job u) store (λ job. refl)
      (λ job e. renew owner u e)

pub try_mark_job_running-Refines :
    (job_id : String) (attempt_count : ℕ) (owner : String) (store : Store)
    → Refines store (try_mark_job_running job_id attempt_count owner store).0
unfolding try_mark_job_running start_job
try_mark_job_running-Refines job_id n owner store =
    update_job-Refines job_id (may_start owner) (start_job n) store (λ job. refl)
      (λ job e. start owner n e)

pub try_cancel_job-Refines :
    (job_id : String) (store : Store) → Refines store (try_cancel_job job_id store).0
unfolding try_cancel_job stop_job
try_cancel_job-Refines job_id store =
    update_job-Refines job_id (λ job. not (is_terminal job.status)) stop_job store (λ job. refl)
      (λ job e. cancel e)

-- A finalisation settles its job by the protocol, given a final or waiting status to set.
pub finalize_attempt-Refines :
    (run : RunRecord) (status : JobStatus) (error : Option Message) (due_at : Option ℕ)
    (owner : String) (store store' : Store) (made : AttemptFinalization)
    → is_held status ≡ false
    → finalize_attempt run status error due_at owner store ≡ ok (store', made)
    → Refines store store'
finalize_attempt-Refines run status error due_at owner store store' made free h k =
    let (job, found, recorded) =
      finalize_attempt-Recorded run status error due_at owner store store' made h in
    elim (Bool-cases (run.job_id == k)) [
      | inl here_it ↦
          let same : run.job_id ≡ k = (eq_iff run.job_id k).0 here_it in
          subst (λ key. Follows (job_row key store) (job_row key store')) same
            (subst (λ row. Follows row (job_row run.job_id store')) (sym found)
              (subst (Follows (some job)) (sym recorded.job_after)
                (elim (Bool-cases (owns_attempt run owner job)) [
                  | inl owns ↦ rw owns (next here (settle run owner status error due_at free owns))
                  | inr lost ↦ rw lost here
                ])))
      | inr other ↦
          subst (Follows (job_row k store)) (sym (recorded.other_jobs k other))
            (Follows-refl (job_row k store))
    ]
