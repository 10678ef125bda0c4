-- ===== src/Store/Protocol/History.antt =====
-- Any sequence of the guarded transactions, by any number of schedulers and callers in any order:
-- each job moves by the protocol.
use goblin_king.Base.{
  ℕ, String, eq_iff, ◌≡◌, refl, true, false, Option, none, some, List, [], ◌∷◌, arith, All,
  Option-cases, inl, inr, ok, raise, Result, Result-cases,
}
use goblin_king.Contracts.{JobRecord, JobStatus, Message, RunRecord, is_terminal, is_held}
use goblin_king.Table.{insert_row}
use goblin_king.Table.Laws.{get_row-insert_row, insert_row-eq_some}
use goblin_king.Store.State.{Store, StoreError}
use goblin_king.Store.Jobs.{
  job_key, save_job, claim_due_jobs, try_renew_job_lease, try_mark_job_running, try_cancel_job,
}
use goblin_king.Store.Jobs.Lookup.{job_row}
use goblin_king.Store.Runs.{finalize_attempt}
use goblin_king.Store.Protocol.{
  JobReach, here, JobReach-trans, IsConsistent, JobReach-IsConsistent, JobReach-terminal,
}
use goblin_king.Store.Protocol.Refine.{
  Follows, claim_due_jobs-Refines, try_renew_job_lease-Refines, try_mark_job_running-Refines,
  try_cancel_job-Refines, finalize_attempt-Refines,
}

pub data Call : Type 0 where
  submit : JobRecord → Call
  claim_jobs : (worker_id : String) (now lease_until limit : ℕ) → Call
  renew_lease : (job_id owner : String) (lease_until : ℕ) → Call
  start_attempt : (job_id : String) (attempt_count : ℕ) (owner : String) → Call
  finish_attempt :
      (run : RunRecord) (status : JobStatus) (error : Option Message) (due_at : Option ℕ)
      (owner : String)
      → Call
  cancel_one : (job_id : String) → Call

-- The store after a call that raises is the store before it: the transaction is rolled back.
abbrev committed : {A : Type 0} → Result StoreError A → (A → Store) → Store → Store
committed (ok a) f store = f a
committed (raise _) f store = store

unfoldable pub perform : Call → Store → Store
perform (submit job) store = committed (save_job job store) (λ saved. saved) store
perform (claim_jobs w n u l) store = (claim_due_jobs w n u l store).0
perform (renew_lease job_id owner u) store = (try_renew_job_lease job_id owner u store).0
perform (start_attempt job_id n owner) store = (try_mark_job_running job_id n owner store).0
perform (finish_attempt run status error due_at owner) store =
    committed (finalize_attempt run status error due_at owner store) (λ done. done.0) store
perform (cancel_one job_id) store = (try_cancel_job job_id store).0

unfoldable pub perform_all : List Call → Store → Store
unfolding perform
perform_all [] store = store
perform_all (call ∷ calls) store = perform_all calls (perform call store)

-- An attempt is finished with a status that holds no lease.
abbrev pub IsProper : Call → Type 0
IsProper (finish_attempt run status error due_at owner) = is_held status ≡ false
IsProper _ = Unit

-- The job under an id is there later too, some moves further.
abbrev pub Moved : String → JobRecord → Store → Type 0
Moved job_id job store = (job' : JobRecord) × (job_row job_id store ≡ some job') × JobReach job job'

Follows-some :
    (job_id : String) (job : JobRecord) (store' : Store) (row : Option JobRecord)
    → job_row job_id store' ≡ row
    → Follows (some job) row
    → Moved job_id job store'
Follows-some job_id job store' none e f = absurd f
Follows-some job_id job store' (some job') e f = (job', e, f)

pub Refines-Moved :
    (job_id : String) (job : JobRecord) (store store' : Store)
    → job_row job_id store ≡ some job
    → Follows (job_row job_id store) (job_row job_id store')
    → Moved job_id job store'
Refines-Moved job_id job store store' found f =
    Follows-some job_id job store' (job_row job_id store') refl (rw found at f)

perform-Moved :
    (call : Call) (store : Store) (job_id : String) (job : JobRecord)
    → IsProper call
    → job_row job_id store ≡ some job
    → Moved job_id job (perform call store)
unfolding perform
perform-Moved (submit new) store job_id job p found =
    elim (Option-cases (insert_row job_key new store.jobs)) [
      | inl taken ↦ (job, unfold save_job in ground arith, here)
      | inr (jobs, added) ↦
          let (free, _) = insert_row-eq_some job_key new store.jobs jobs added in
          let seen = get_row-insert_row job_key job_id new store.jobs jobs added in
          (job, unfold save_job in ground (arith, eq_iff new.id job_id), here)
    ]
perform-Moved (claim_jobs w n u l) store job_id job p found =
    Refines-Moved job_id job store (perform (claim_jobs w n u l) store) found
      (claim_due_jobs-Refines w n u l store job_id)
perform-Moved (renew_lease id owner u) store job_id job p found =
    Refines-Moved job_id job store (perform (renew_lease id owner u) store) found
      (try_renew_job_lease-Refines id owner u store job_id)
perform-Moved (start_attempt id n owner) store job_id job p found =
    Refines-Moved job_id job store (perform (start_attempt id n owner) store) found
      (try_mark_job_running-Refines id n owner store job_id)
perform-Moved (finish_attempt run status error due_at owner) store job_id job p found =
    elim (Result-cases (finalize_attempt run status error due_at owner store)) [
      | inl ((store', made), e) ↦
          rw (perform, e)
            (Refines-Moved job_id job store store' found
              (finalize_attempt-Refines run status error due_at owner store store' made p e job_id))
      | inr (x, e) ↦ rw (perform, e) (job, found, here)
    ]
perform-Moved (cancel_one id) store job_id job p found =
    Refines-Moved job_id job store (perform (cancel_one id) store) found
      (try_cancel_job-Refines id store job_id)

-- Whatever calls are made, a job stays in the table and moves only by the protocol.
pub perform_all-Moved :
    (calls : List Call) (store : Store) (job_id : String) (job : JobRecord)
    → All IsProper calls
    → job_row job_id store ≡ some job
    → Moved job_id job (perform_all calls store)
unfolding perform_all
perform_all-Moved [] store job_id job p found = (job, found, here)
perform_all-Moved (call ∷ calls) store job_id job p found =
    let (mid, at, first) = perform-Moved call store job_id job p.0 found in
    let (last, end, rest) = perform_all-Moved calls (perform call store) job_id mid p.1 at in
    (last, end, JobReach-trans first rest)

-- A job that is completed, failed, timed out or cancelled is the same, in every column, after any
-- sequence of calls.
pub perform_all-terminal :
    (calls : List Call) (store : Store) (job_id : String) (job : JobRecord)
    → All IsProper calls
    → job_row job_id store ≡ some job
    → is_terminal job.status ≡ true
    → job_row job_id (perform_all calls store) ≡ some job
perform_all-terminal calls store job_id job p found done =
    let (last, end, reach) = perform_all-Moved calls store job_id job p found in
    let same = JobReach-terminal reach done in cc

-- A job whose lease columns are set exactly while it is leased or running stays so after any
-- sequence of calls.
pub perform_all-IsConsistent :
    (calls : List Call) (store : Store) (job_id : String) (job : JobRecord)
    → All IsProper calls
    → job_row job_id store ≡ some job
    → IsConsistent job
    → (job' : JobRecord) × (job_row job_id (perform_all calls store) ≡ some job')
      × IsConsistent job'
perform_all-IsConsistent calls store job_id job p found c =
    let (last, end, reach) = perform_all-Moved calls store job_id job p found in
    (last, end, JobReach-IsConsistent reach c)
