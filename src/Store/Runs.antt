-- ===== src/Store/Runs.antt =====
-- The life of a run (store_run_lifecycle.py): insertion, the running projection, and the
-- transaction that finishes an attempt and moves its job on.
pub mod Rows
pub mod Ownership
pub mod Finalize
pub mod Once
use goblin_king.Base.{
  ℕ, ◌+◌, String, ◌==◌, Bool, true, false, not, ◌&&◌, ◌||◌, Option, none, some, List, [], ◌∷◌, ◌++◌,
  map, if◌then◌else◌, eqb, leb, is_some, is_text, same_text, Result, ok, raise, ◌>>=◌, ◌>>◌,
  raise_if,
}
use goblin_king.Contracts.{
  JobRecord, JobStatus, Message, RunRecord, RunStatus, GoblinResult, ArtifactRecord, HandoffRecord,
  Fields, is_empty, is_finished, is_leased, is_running, is_cancelled,
}
use goblin_king.Table.{select_where, update_where, delete_where, order_by, get_row, insert_row}
use goblin_king.Store.State.{
  Store, StoreError, integrity_error, started_status, started_finished, started_result,
  started_error, job_not_found, cannot_finalize_with, cannot_finalize_from, cannot_change_lineage,
  ArtifactRow, HandoffRow,
}
use goblin_king.Store.Jobs.{job_key, update_job, settle_job}

abbrev pub run_key : RunRecord → String
run_key run = run.id

pub data AttemptOutcome : Type 0 where
  finalized cancelled stale : AttemptOutcome

pub record AttemptFinalization : Type 0 where
  pub run : RunRecord
  pub outcome : AttemptOutcome

-- A finished run without a finish time gets its start time.
unfoldable pub normalize_persisted_run : RunRecord → RunRecord
normalize_persisted_run run =
    if is_finished run.status && not (is_some run.finished_at)
    then record run { finished_at = some run.started_at }
    else run

-- `_run_values`: an empty policy is stored as none.
unfoldable pub run_values : RunRecord → RunRecord
run_values run = record run {
  resource_policy = elim run.resource_policy [
    | none ↦ none
    | some policy ↦ if is_empty policy then none else some policy
  ];
}

abbrev pub artifact_rows : String → Option GoblinResult → List ArtifactRow
artifact_rows run_id none = []
artifact_rows run_id (some result) =
    map (λ artifact. record { run_id = run_id; artifact = artifact }) result.artifacts

abbrev pub handoff_rows : String → Option GoblinResult → List HandoffRow
handoff_rows run_id none = []
handoff_rows run_id (some result) =
    map (λ handoff. record { run_id = run_id; handoff = handoff }) result.handoff

unfoldable pub insert_run_children : RunRecord → Store → Store
insert_run_children run store = record store {
  artifacts = store.artifacts ++ artifact_rows run.id run.result;
  handoffs = store.handoffs ++ handoff_rows run.id run.result;
}

unfoldable pub insert_run : RunRecord → Store → Result StoreError Store
unfolding run_values insert_run_children
insert_run run store = elim (insert_row run_key (run_values run) store.runs) [
  | none ↦ raise integrity_error
  | some runs ↦ ok (insert_run_children run (record store { runs = runs }))
]

unfoldable pub persist_run : RunRecord → Store → Result StoreError (Store × RunRecord)
unfolding normalize_persisted_run insert_run
persist_run run store = do
  let normalized = normalize_persisted_run run
  store' ← insert_run normalized store
  ok (store', normalized)

unfoldable pub start_run : RunRecord → Store → Result StoreError (Store × RunRecord)
unfolding insert_run
start_run run store = do
  raise_if (is_finished run.status) started_status
  raise_if (is_some run.finished_at) started_finished
  raise_if (is_some run.result) started_result
  raise_if (is_some run.error) started_error
  store' ← insert_run run store
  ok (store', run)

-- `actual_lineage == expected_lineage`
unfoldable pub same_lineage : RunRecord → RunRecord → Bool
same_lineage run existing =
    (run.job_id == existing.job_id && run.kind == existing.kind)
    && (same_text run.project_id existing.project_id && eqb run.attempt existing.attempt)

-- The UPDATE of the run's row, and its children replaced.
unfoldable pub replace_run : RunRecord → Store → Store
unfolding run_values insert_run_children
replace_run run store = insert_run_children run (record store {
  runs = update_where (λ row. row.id == run.id) (λ _. run_values run) store.runs;
  artifacts = delete_where (λ row. row.run_id == run.id) store.artifacts;
  handoffs = delete_where (λ row. row.run_id == run.id) store.handoffs;
})

unfoldable pub finalize_run : RunRecord → Store → Result StoreError Store
unfolding insert_run same_lineage replace_run
finalize_run run store =
    if not (is_finished run.status)
    then raise (cannot_finalize_with run.id run.status)
    else elim (get_row run_key run.id store.runs) [
      | none ↦ insert_run run store
      | some existing ↦
          if is_finished existing.status
          then raise (cannot_finalize_from run.id existing.status)
          else if same_lineage run existing
          then ok (replace_run run store)
          else raise (cannot_change_lineage run.id)
    ]

-- The attempt still holds the job: it owns the lease, and the job is running at this attempt, or
-- leased one attempt before it.
unfoldable pub owns_attempt : RunRecord → String → JobRecord → Bool
owns_attempt run expected_lease_owner job =
    is_text job.lease_owner expected_lease_owner
    && (is_running job.status && eqb job.attempt_count run.attempt
        || is_leased job.status && eqb (job.attempt_count + 1) run.attempt)

-- The job's part of the transaction: the jobs table moves only if the attempt holds the job.
unfoldable pub settle_attempt :
    RunRecord
    → JobStatus
    → Option Message
    → Option ℕ
    → String
    → JobRecord
    → Store
    → Store × AttemptOutcome
unfolding owns_attempt settle_job
settle_attempt run job_status last_error due_at expected_lease_owner job store =
    if owns_attempt run expected_lease_owner job
    then (
      (update_job run.job_id (λ _. true) (settle_job job_status last_error due_at) store).0,
      finalized,
    )
    else if is_cancelled job.status
    then (store, AttemptOutcome.cancelled)
    else (store, stale)

unfoldable pub finalize_attempt :
    (run : RunRecord) (job_status : JobStatus) (last_error : Option Message) (due_at : Option ℕ)
    (expected_lease_owner : String)
    → Store
    → Result StoreError (Store × AttemptFinalization)
unfolding normalize_persisted_run settle_attempt finalize_run
finalize_attempt run job_status last_error due_at expected_lease_owner store =
    let normalized = normalize_persisted_run run in
    elim (get_row job_key run.job_id store.jobs) [
      | none ↦ raise (job_not_found run.job_id)
      | some job ↦
          let (moved, outcome) =
            settle_attempt run job_status last_error due_at expected_lease_owner job store in
          finalize_run normalized moved >>= λ store'.
          ok (store', record { run = normalized; outcome = outcome })
    ]

unfoldable pub get_run : String → Store → Option RunRecord
get_run run_id store = get_row run_key run_id store.runs

-- The runs of one job, by attempt.
unfoldable pub list_job_runs : (job_id : String) → Store → List RunRecord
list_job_runs job_id store =
    order_by (λ a b. leb a.attempt b.attempt)
      (select_where (λ run. run.job_id == job_id) store.runs)
