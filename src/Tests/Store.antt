-- ===== src/Tests/Store.antt =====
-- The store's theorems on the sample store.
use mathlib.Core.Option
use goblin_king.Base.{
  ◌==◌, ◌≤◌, ◌≡◌, refl, true, false, none, some, List, [], ◌∷◌, map, arith, All, ok, raise, ◌&&◌,
  any, if◌then◌else◌, length,
}
use goblin_king.Contracts.{JobRecord, JobStatus, RunRecord, RunStatus, text}
use goblin_king.Table.{
  order_by, select_where, get_row, update_where, row_count, insert_row, delete_where,
}
use goblin_king.Store.{Store, empty_store, cannot_finalize_from}
use goblin_king.Store.Jobs.{
  row_to_job, is_claimable, claimable_status, claims_before, lease_job, due_rows, claim_rows,
  claim_due_jobs, settle_job,
}
use goblin_king.Store.Jobs.Lookup.{job_row, HasJobIds}
use goblin_king.Store.Jobs.Priority.{due_rows-first, IsServed}
use goblin_king.Store.Jobs.Claim.{claim_due_jobs-claimed, claim_due_jobs-row, IsLeasedTo}
use goblin_king.Store.Jobs.Exclusive.{claim_due_jobs_exclusive}
use goblin_king.Store.Runs.{
  AttemptFinalization, finalized, finalize_attempt, finalize_run, normalize_persisted_run,
  settle_attempt, owns_attempt, start_run, insert_run, same_lineage, run_values, replace_run,
  insert_run_children,
}
use goblin_king.Store.Runs.Finalize.{Recorded, finalize_attempt-Recorded}
use goblin_king.Store.Protocol.Finished.{
  RunCall, on_jobs, open_run, make_all, make, finalize_attempt_final,
}
use goblin_king.Store.Runs.Rows.{run_row}
use goblin_king.Store.Runs.Once.{start_run-finalize_attempt}
use goblin_king.Store.Events.{persist_event, newest_event, sequenced}
use goblin_king.Store.Events.Causal.{IsOrdered, Precedes, persist_event-IsOrdered}
use goblin_king.Store.Protocol.{IsConsistent}
use goblin_king.Store.Protocol.History.{
  Call, claim_jobs, start_attempt, finish_attempt, cancel_one, perform_all, perform_all-terminal,
  perform_all-IsConsistent,
}
use goblin_king.Tests.Samples.{
  queued_job, running_job, done_job, urgent_job, running_run, failed_run, busy_store, first_event,
  second_event,
}

abbrev calls : List Call
calls =
    claim_jobs "s2" 30 60 5
    ∷ start_attempt "j3" 1 "s2"
    ∷ finish_attempt failed_run JobStatus.retrying none (some 99) "s1"
    ∷ cancel_one "j3"
    ∷ []

perform_all-terminal_example : job_row "j3" (perform_all calls busy_store) ≡ some done_job
unfolding get_row
perform_all-terminal_example =
    perform_all-terminal calls busy_store "j3" done_job (tt, (tt, (refl, (tt, tt)))) refl refl

perform_all-IsConsistent_example :
    (job' : JobRecord) × (job_row "j2" (perform_all calls busy_store) ≡ some job')
    × IsConsistent job'
unfolding get_row
perform_all-IsConsistent_example =
    perform_all-IsConsistent calls busy_store "j2" running_job (tt, (tt, (refl, (tt, tt)))) refl
      (record { owned = refl; timed = refl })

busy-HasJobIds : HasJobIds busy_store
unfolding get_row
busy-HasJobIds = (refl, (refl, (refl, (refl, tt))))

-- The urgent job comes first, and the queued one behind it; the running one is held.
claim_run : map (λ job. job.id) (claim_due_jobs "s2" 30 60 5 busy_store).1 ≡ "j4" ∷ "j1" ∷ []
unfolding claim_due_jobs due_rows claim_rows order_by select_where is_claimable claimable_status
    claims_before row_count update_where lease_job
claim_run = refl

claim_due_jobs_exclusive_example :
    let (store', claimed) = claim_due_jobs "s2" 30 60 1 busy_store in
    let (_, claimed') = claim_due_jobs "s3" 59 99 5 store' in
    All (λ b. All (λ a. (a.id == b.id) ≡ false) claimed) claimed'
claim_due_jobs_exclusive_example =
    claim_due_jobs_exclusive "s2" "s3" 30 60 1 59 99 5 busy_store busy-HasJobIds (omega arith)

claim_due_jobs-claimed_example :
    ((claim_due_jobs "s2" 30 60 1 busy_store).1
      ≡ map (λ row. row_to_job (lease_job "s2" 60 row)) (due_rows 30 1 busy_store.jobs))
    × (length (claim_due_jobs "s2" 30 60 1 busy_store).1 ≤ 1)
    × All (IsLeasedTo "s2" 60) (claim_due_jobs "s2" 30 60 1 busy_store).1
claim_due_jobs-claimed_example = claim_due_jobs-claimed "s2" 30 60 1 busy_store busy-HasJobIds

claim_due_jobs-row_example :
    job_row "j1" (claim_due_jobs "s2" 30 60 5 busy_store).0
    ≡ Option.map
        (λ job.
          if any (λ row. row.id == "j1") (due_rows 30 5 busy_store.jobs) && is_claimable 30 job
          then lease_job "s2" 60 job
          else job)
        (job_row "j1" busy_store)
claim_due_jobs-row_example = claim_due_jobs-row "s2" 30 60 5 busy_store "j1"

due_rows-first_example :
    All
      (λ job. is_claimable 30 job ≡ true → IsServed (due_rows 30 1 busy_store.jobs) job)
      busy_store.jobs
due_rows-first_example = due_rows-first 30 1 busy_store.jobs

abbrev settled : JobRecord
settled = record running_job {
  status = JobStatus.retrying;
  last_error = some (text "boom");
  lease_owner = none;
  leased_until = none;
  due_at = some 99;
}

abbrev recorded_run : RunRecord
recorded_run = record failed_run { finished_at = some 50 }

abbrev settled_store : Store
settled_store = record busy_store {
  jobs = queued_job ∷ settled ∷ done_job ∷ urgent_job ∷ [];
  runs = recorded_run ∷ [];
}

-- The owner finishes its attempt: the job is retried, and the run gets a finish time.
finalize_run_there :
    finalize_attempt failed_run JobStatus.retrying (some (text "boom")) (some 99) "s1" busy_store
    ≡ ok (settled_store, record { run = recorded_run; outcome = finalized })
unfolding finalize_attempt normalize_persisted_run settle_attempt finalize_run owns_attempt
    settle_job get_row update_where same_lineage replace_run run_values delete_where select_where
    insert_run_children
finalize_run_there = refl

finalize_attempt-Recorded_example :
    (job : JobRecord) × (job_row failed_run.job_id busy_store ≡ some job)
    × Recorded failed_run JobStatus.retrying
        (some (text "boom"))
        (some 99)
        "s1"
        job
        busy_store
        settled_store
        (record { run = recorded_run; outcome = finalized })
finalize_attempt-Recorded_example =
    finalize_attempt-Recorded failed_run JobStatus.retrying (some (text "boom")) (some 99) "s1"
      busy_store settled_store (record { run = recorded_run; outcome = finalized })
      finalize_run_there

-- Between the two finalisations, another job is cancelled and another run is started.
abbrev calls_between : List RunCall
calls_between = on_jobs (cancel_one "j1") ∷ open_run (record running_run { id = "r9" }) ∷ []

finalize_attempt_final_example :
    (run_row "r2" (make_all calls_between settled_store) ≡ some recorded_run)
    × (finalize_attempt failed_run JobStatus.failed none none "s2"
          (make_all calls_between settled_store)
        ≡ raise (cannot_finalize_from "r2" RunStatus.failed))
unfolding get_row make_all make goblin_king.Store.Protocol.History.perform
    goblin_king.Store.Jobs.try_cancel_job start_run insert_run insert_row run_values
    insert_run_children update_where normalize_persisted_run
finalize_attempt_final_example =
    finalize_attempt_final failed_run JobStatus.retrying (some (text "boom")) (some 99) "s1"
      busy_store settled_store (record { run = recorded_run; outcome = finalized }) calls_between
      failed_run JobStatus.failed none none "s2" settled finalize_run_there refl refl refl

abbrev idle_store : Store
idle_store = record busy_store { runs = [] }

start_run-there : start_run running_run idle_store ≡ ok (busy_store, running_run)
unfolding start_run insert_run insert_row run_values insert_run_children
start_run-there = refl

start_run-finalize_attempt_example :
    (store' : Store) × (result : AttemptFinalization) × (finalize_attempt failed_run
        JobStatus.failed none none "s1" busy_store
      ≡ ok (store', result))
unfolding get_row same_lineage
start_run-finalize_attempt_example =
    start_run-finalize_attempt running_run failed_run idle_store busy_store running_run running_job
      JobStatus.failed none none "s1" start_run-there refl refl refl refl

abbrev one_event : Store
one_event = record empty_store {
  events = record first_event { sequence = 1 } ∷ [];
  event_sequence = 1;
}

abbrev two_events : Store
two_events = record empty_store {
  events =
      record first_event { sequence = 1 }
      ∷ record second_event { sequence = 2; created_at = 41 }
      ∷ [];
  event_sequence = 2;
}

-- An event from a clock that runs behind is moved after the newest one.
persist-second :
    persist_event second_event one_event
    ≡ ok (two_events, record second_event { sequence = 2; created_at = 41 })
unfolding persist_event sequenced newest_event order_by insert_row
    goblin_king.CausalTime.causally_after
persist-second = refl

persist_event-IsOrdered_example :
    IsOrdered two_events
    × All
        (λ old. Precedes old (record second_event { sequence = 2; created_at = 41 }))
        one_event.events
    × (35 ≤ 41)
unfolding get_row
persist_event-IsOrdered_example =
    persist_event-IsOrdered second_event one_event two_events
      (record second_event { sequence = 2; created_at = 41 })
      (record { causal = (tt, tt); counted = omega arith; ids = (refl, tt) }) persist-second
