-- ===== src/Store/Runs/Finalize.antt =====
-- The transaction that finishes an attempt: who may move the job, what is recorded, and that a
-- finished run is final.
use goblin_king.Base.{
  ◌↔◌, ℕ, String, ◌==◌, eq_iff, eq_refl, ◌≡◌, refl, ◌∙◌, ◌⊎◌, true, false, Option, none, some,
  arith, if◌then◌else◌, Bool-cases, Option-cases, inl, inr, ok, Result-cases,
}
use goblin_king.Contracts.{JobRecord, JobStatus, Message, RunRecord, is_finished, is_cancelled}
use goblin_king.Table.Laws.{get_row-key}
use goblin_king.Store.State.{Store}
use goblin_king.Store.Jobs.{settle_job}
use goblin_king.Store.Jobs.Lookup.{job_row, job_row-update_found}
use goblin_king.Store.Runs.{
  AttemptOutcome, finalized, stale, AttemptFinalization, normalize_persisted_run, run_key,
  run_values, insert_run, finalize_run, replace_run, same_lineage, owns_attempt, settle_attempt,
  finalize_attempt,
}
use goblin_king.Store.Runs.Ownership.{Holds, owns_attempt-Holds}
use goblin_king.Store.Runs.Rows.{run_row, insert_run-ok, replace_run-row, replace_run-jobs}

replace_run_at :
    (run existing : RunRecord) (store : Store) (k : String)
    → run_row run.id store ≡ some existing
    → run_row k (replace_run run store)
      ≡ (if run.id == k then some (run_values run) else run_row k store)
replace_run_at run existing store k e = elim (Option-cases (run_row k store)) [
  | inl absent ↦ ground (arith, eq_iff run.id k, replace_run-row run store k)
  | inr (row, found) ↦ ground (
    arith,
    eq_iff run.id k,
    eq_iff row.id run.id,
    replace_run-row run store k,
    get_row-key run_key k store.runs row found,
  )
]

-- What a successful `_finalize_run` found and left behind.
pub record Finalizes (run : RunRecord) (store store' : Store) : Type 0 where
  pub finished : is_finished run.status ≡ true
  pub before :
      (run_row run.id store ≡ none)
      ⊎ ((existing : RunRecord) × (run_row run.id store ≡ some existing)
          × (is_finished existing.status ≡ false)
          × (same_lineage run existing ≡ true))
  pub rows :
      (k : String)
      → run_row k store' ≡ (if run.id == k then some (run_values run) else run_row k store)
  pub jobs : store'.jobs ≡ store.jobs

pub finalize_run-Finalizes :
    (run : RunRecord) (store store' : Store)
    → finalize_run run store ≡ ok store'
    → Finalizes run store store'
unfolding finalize_run
finalize_run-Finalizes run store store' h = elim (Option-cases (run_row run.id store)) [
  | inl absent ↦
      let inserted : insert_run run store ≡ ok store' = ground arith in
      record {
        finished = ground arith;
        before = inl absent;
        rows = (insert_run-ok run store store' inserted).0;
        jobs = (insert_run-ok run store store' inserted).1;
      }
  | inr (existing, found) ↦
      let replaced : replace_run run store ≡ store' = ground arith in
      record {
        finished = ground arith;
        before = inr (existing, found, ground arith, ground arith);
        rows = λ k. ground (arith, replace_run_at run existing store k found);
        jobs = ground (arith, replace_run-jobs run store);
      }
]

-- A finished run is final: no later attempt changes its row.
pub finalize_run-final :
    (run : RunRecord) (store store' : Store) (run_id : String) (old : RunRecord)
    → finalize_run run store ≡ ok store'
    → run_row run_id store ≡ some old
    → is_finished old.status ≡ true
    → run_row run_id store' ≡ some old
finalize_run-final run store store' run_id old h found done =
    let f = finalize_run-Finalizes run store store' h in
    let seen = f.rows run_id in
    elim f.before [
      | inl absent ↦ ground (arith, eq_iff run.id run_id)
      | inr (existing, at, unfinished, _) ↦ ground (arith, eq_iff run.id run_id)
    ]

pub settle_attempt-runs :
    (run : RunRecord) (status : JobStatus) (error : Option Message) (due_at : Option ℕ)
    (owner : String) (job : JobRecord) (store : Store)
    → (settle_attempt run status error due_at owner job store).0.runs ≡ store.runs
unfolding settle_attempt
settle_attempt-runs run status error due_at owner job store = ground arith

-- The outcome of a finalisation as a function of the job's row.
abbrev pub outcome_for : RunRecord → String → JobRecord → AttemptOutcome
outcome_for run owner job =
    if owns_attempt run owner job
    then finalized
    else if is_cancelled job.status
    then AttemptOutcome.cancelled
    else stale

-- What a successful finalisation did: the job's row moved exactly if the attempt held the job, the
-- run is recorded in its normalised form, and every other row of both tables is as before.
pub record Recorded (run : RunRecord) (status : JobStatus) (error : Option Message)
    (due_at : Option ℕ) (owner : String) (job : JobRecord) (store store' : Store)
    (made : AttemptFinalization) : Type 0 where
  pub run_made : made.run ≡ normalize_persisted_run run
  pub held : (owns_attempt run owner job ≡ true) ↔ Holds run owner job
  pub outcome : made.outcome ≡ outcome_for run owner job
  pub job_after :
      job_row run.job_id store'
      ≡ some (if owns_attempt run owner job then settle_job status error due_at job else job)
  pub other_jobs : (k : String) → (run.job_id == k) ≡ false → job_row k store' ≡ job_row k store
  pub runs_after :
      (k : String)
      → run_row k store'
        ≡ (if run.id == k then some (run_values (normalize_persisted_run run)) else run_row k store)

pub settle_attempt-job :
    (run : RunRecord) (status : JobStatus) (error : Option Message) (due_at : Option ℕ)
    (owner : String) (job : JobRecord) (store : Store) (k : String)
    → job_row run.job_id store ≡ some job
    → job_row k (settle_attempt run status error due_at owner job store).0 ≡ (
        if run.job_id == k
        then some (if owns_attempt run owner job then settle_job status error due_at job else job)
        else job_row k store)
unfolding settle_attempt settle_job
settle_attempt-job run status error due_at owner job store k found =
    let moved =
      job_row-update_found run.job_id (settle_job status error due_at) store job k (λ _. refl)
        found in
    elim (Bool-cases (owns_attempt run owner job)) [
      | inl e ↦ rw (e, moved)
      | inr e ↦ rw e (ground (arith, eq_iff run.job_id k))
    ]

settle_attempt-outcome :
    (run : RunRecord) (status : JobStatus) (error : Option Message) (due_at : Option ℕ)
    (owner : String) (job : JobRecord) (store : Store)
    → (settle_attempt run status error due_at owner job store).1 ≡ outcome_for run owner job
unfolding settle_attempt
settle_attempt-outcome run status error due_at owner job store = ground arith

pub normalize_persisted_run-id : (run : RunRecord) → (normalize_persisted_run run).id ≡ run.id
unfolding normalize_persisted_run
normalize_persisted_run-id run = ground arith

-- The two halves of a finalisation that returned.
pub finalize_attempt-split :
    (run : RunRecord) (status : JobStatus) (error : Option Message) (due_at : Option ℕ)
    (owner : String) (store store' : Store) (made : AttemptFinalization) (job : JobRecord)
    → job_row run.job_id store ≡ some job
    → finalize_attempt run status error due_at owner store ≡ ok (store', made)
    → let (moved, outcome) = settle_attempt run status error due_at owner job store in
      (finalize_run (normalize_persisted_run run) moved ≡ ok store')
      × (made.run ≡ normalize_persisted_run run)
      × (made.outcome ≡ outcome)
unfolding finalize_attempt
finalize_attempt-split run status error due_at owner store store' made job found h =
    elim (Result-cases (
      finalize_run (normalize_persisted_run run)
        (settle_attempt run status error due_at owner job store).0)) [
          | inl (s, e) ↦ (ground arith, ground arith, ground arith)
          | inr (x, e) ↦ absurd (ground arith)
        ]

-- A finalisation that returns has recorded the run, and has moved the job exactly if the attempt
-- still held it: by the lease's owner, and by the attempt's number.
pub finalize_attempt-Recorded :
    (run : RunRecord) (status : JobStatus) (error : Option Message) (due_at : Option ℕ)
    (owner : String) (store store' : Store) (made : AttemptFinalization)
    → finalize_attempt run status error due_at owner store ≡ ok (store', made)
    → (job : JobRecord) × (job_row run.job_id store ≡ some job)
      × Recorded run status error due_at owner job store store' made
unfolding finalize_attempt
finalize_attempt-Recorded run status error due_at owner store store' made h =
    elim (Option-cases (job_row run.job_id store)) [
      | inl absent ↦ absurd (ground arith)
      | inr (job, found) ↦
          let (written, run_made, outcome) =
            finalize_attempt-split run status error due_at owner store store' made job found h in
          let moved = (settle_attempt run status error due_at owner job store).0 in
          let f = finalize_run-Finalizes (normalize_persisted_run run) moved store' written in
          let same_id = normalize_persisted_run-id run in
          let at =
            λ (k : String). settle_attempt-job run status error due_at owner job store k found in
          (
            job,
            found,
            record {
              run_made = run_made;
              held = owns_attempt-Holds run owner job;
              outcome = outcome ∙ settle_attempt-outcome run status error due_at owner job store;
              job_after = ground (arith, f.jobs, at run.job_id, eq_refl run.job_id);
              other_jobs = λ k e. ground (arith, f.jobs, at k);
              runs_after = λ k.
                  ground
                    (arith, f.rows k, settle_attempt-runs run status error due_at owner job store);
            },
          )
    ]
