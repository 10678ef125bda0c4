-- ===== src/Store/Runs/Once.antt =====
-- A run is finished once: when a finalisation goes through, and that a second one is refused.
use goblin_king.Base.{
  ℕ, String, eq_refl, ◌≡◌, true, false, Option, some, arith, inl, inr, ok, raise, Result-cases,
}
use goblin_king.Contracts.{JobRecord, JobStatus, Message, RunRecord, is_finished}
use goblin_king.Store.State.{Store, cannot_finalize_from}
use goblin_king.Store.Jobs.Lookup.{job_row}
use goblin_king.Store.Runs.{
  AttemptFinalization, normalize_persisted_run, run_values, start_run, insert_run, finalize_run,
  replace_run, same_lineage, settle_attempt, finalize_attempt,
}
use goblin_king.Store.Runs.Rows.{run_row, insert_run-ok}
use goblin_king.Store.Runs.Finalize.{settle_attempt-runs, normalize_persisted_run-id}

pub normalize-same :
    (run existing : RunRecord)
    → (same_lineage (normalize_persisted_run run) existing ≡ same_lineage run existing)
      × ((normalize_persisted_run run).status ≡ run.status)
unfolding normalize_persisted_run same_lineage
normalize-same run existing = (ground arith, ground arith)

-- A finished attempt goes through whenever its job is there and its run is the running projection
-- of the same job, kind, project and attempt, whoever owns the job by then.
pub finalize_attempt_total :
    (run : RunRecord) (status : JobStatus) (error : Option Message) (due_at : Option ℕ)
    (owner : String) (store : Store) (job : JobRecord) (existing : RunRecord)
    → is_finished run.status ≡ true
    → job_row run.job_id store ≡ some job
    → run_row run.id store ≡ some existing
    → is_finished existing.status ≡ false
    → same_lineage run existing ≡ true
    → (store' : Store) × (made : AttemptFinalization) × (finalize_attempt run status error due_at
          owner store
        ≡ ok (store', made))
unfolding finalize_attempt finalize_run
finalize_attempt_total run status error due_at owner store job existing done found at unfinished
      same =
    let moved = settle_attempt run status error due_at owner job store in
    let normalized = normalize_persisted_run run in
    let same_id = normalize_persisted_run-id run in
    let kept = settle_attempt-runs run status error due_at owner job store in
    let (lineage, same_status) = normalize-same run existing in
    (replace_run normalized moved.0, record { run = normalized; outcome = moved.1 }, ground arith)

pub run_values-status :
    (run : RunRecord) → (run_values (normalize_persisted_run run)).status ≡ run.status
unfolding run_values normalize_persisted_run
run_values-status run = ground arith

pub finalize_attempt_refused :
    (run : RunRecord) (status : JobStatus) (error : Option Message) (due_at : Option ℕ)
    (owner : String) (store : Store) (job : JobRecord) (existing : RunRecord)
    → is_finished run.status ≡ true
    → job_row run.job_id store ≡ some job
    → run_row run.id store ≡ some existing
    → is_finished existing.status ≡ true
    → finalize_attempt run status error due_at owner store
      ≡ raise (cannot_finalize_from run.id existing.status)
unfolding finalize_attempt finalize_run
finalize_attempt_refused run status error due_at owner store job existing done found at finished =
    let same_id = normalize_persisted_run-id run in
    let kept = settle_attempt-runs run status error due_at owner job store in
    let (lineage, same_status) = normalize-same run existing in ground arith

-- A started run is finished by the attempt that started it, if its job is there: the running
-- projection is taken, and the finished run is then accepted.
pub start_run-finalize_attempt :
    (run finished : RunRecord) (store started : Store) (made : RunRecord) (job : JobRecord)
    (status : JobStatus) (error : Option Message) (due_at : Option ℕ) (owner : String)
    → start_run run store ≡ ok (started, made)
    → finished.id ≡ run.id
    → same_lineage finished run ≡ true
    → is_finished finished.status ≡ true
    → job_row finished.job_id started ≡ some job
    → (store' : Store) × (result : AttemptFinalization) × (finalize_attempt finished status error
          due_at owner started
        ≡ ok (store', result))
unfolding start_run
start_run-finalize_attempt run finished store started made job status error due_at owner h same
      lineage done found =
    elim (Result-cases (insert_run run store)) [
      | inl (s, e) ↦
          let rows = (insert_run-ok run store s e).0 finished.id in
          finalize_attempt_total finished status error due_at owner started job (run_values run)
            done found (ground (arith, eq_refl run.id)) (unfold run_values in ground arith)
            (unfold run_values same_lineage in ground arith)
      | inr (x, e) ↦ absurd (ground arith)
    ]
