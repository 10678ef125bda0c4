-- ===== src/Store/Protocol/Finished.antt =====
-- A finished run is final: its row stays, and its id is refused, whatever calls of the store are made
-- by schedulers and callers in between.
use goblin_king.Base.{
  ℕ, String, eq_iff, eq_refl, ◌≡◌, sym, ap, ◌∙◌, true, Option, some, List, [], ◌∷◌, arith,
  Option-cases, inl, inr, ok, raise, Result, Result-cases,
}
use goblin_king.Contracts.{JobRecord, JobStatus, Message, RunRecord, is_finished}
use goblin_king.Table.{insert_row}
use goblin_king.Table.Laws.{insert_row-eq_some}
use goblin_king.Store.State.{Store, StoreError, cannot_finalize_from}
use goblin_king.Store.Jobs.{
  save_job, claim_due_jobs, try_renew_job_lease, try_mark_job_running, try_cancel_job,
}
use goblin_king.Store.Jobs.Lookup.{job_row}
use goblin_king.Store.Runs.{
  AttemptFinalization, normalize_persisted_run, run_key, run_values, start_run, persist_run,
  insert_run, finalize_attempt, settle_attempt,
}
use goblin_king.Store.Runs.Rows.{run_row, insert_run-ok}
use goblin_king.Store.Runs.Finalize.{
  finalize_attempt-split, finalize_attempt-Recorded, settle_attempt-runs, finalize_run-final,
  finalize_run-Finalizes,
}
use goblin_king.Store.Runs.Once.{finalize_attempt_refused, run_values-status, normalize-same}
use goblin_king.Store.Protocol.History.{
  Call, perform, submit, claim_jobs, renew_lease, start_attempt, finish_attempt, cancel_one,
}

-- A call on the jobs, or one that inserts a run.
pub data RunCall : Type 0 where
  on_jobs : Call → RunCall
  open_run : RunRecord → RunCall
  store_run : RunRecord → RunCall

-- A call that raises leaves the store as it was.
abbrev kept : Store → Result StoreError (Store × RunRecord) → Store
kept store (ok (store', run)) = store'
kept store (raise _) = store

unfoldable pub make : RunCall → Store → Store
unfolding perform
make (on_jobs call) store = perform call store
make (open_run run) store = kept store (start_run run store)
make (store_run run) store = kept store (persist_run run store)

unfoldable pub make_all : List RunCall → Store → Store
unfolding make
make_all [] store = store
make_all (call ∷ calls) store = make_all calls (make call store)

-- The finished run under an id.
abbrev pub HasFinished : String → RunRecord → Store → Type 0
HasFinished run_id old store = (run_row run_id store ≡ some old) × (is_finished old.status ≡ true)

insert_run-keeps :
    (run : RunRecord) (store store' : Store) (run_id : String) (old : RunRecord)
    → insert_run run store ≡ ok store'
    → run_row run_id store ≡ some old
    → run_row run_id store' ≡ some old
unfolding insert_run run_values
insert_run-keeps run store store' run_id old h found =
    let seen = (insert_run-ok run store store' h).0 run_id in
    elim (Option-cases (insert_row run_key (run_values run) store.runs)) [
      | inl e ↦ absurd (ground arith)
      | inr (runs, e) ↦
          let (free, _) = insert_row-eq_some run_key (run_values run) store.runs runs e in
          ground (arith, eq_iff run.id run_id)
    ]

insertion-keeps :
    (run : RunRecord) (store : Store) (run_id : String) (old : RunRecord)
    → run_row run_id store ≡ some old
    → (run_row run_id (kept store (start_run run store)) ≡ some old)
      × (run_row run_id (kept store (persist_run run store)) ≡ some old)
insertion-keeps run store run_id old found = (
  elim (Result-cases (insert_run run store)) [
    | inl (s, e) ↦
        let stays = insert_run-keeps run store s run_id old e found in
        unfold start_run in ground arith
    | inr (x, e) ↦ unfold start_run in ground arith
  ],
  elim (Result-cases (insert_run (normalize_persisted_run run) store)) [
    | inl (s, e) ↦
        let stays = insert_run-keeps (normalize_persisted_run run) store s run_id old e found in
        unfold persist_run in ground arith
    | inr (x, e) ↦ unfold persist_run in ground arith
  ],
)

perform-keeps :
    (call : Call) (store : Store) (run_id : String) (old : RunRecord)
    → HasFinished run_id old store
    → run_row run_id (perform call store) ≡ some old
unfolding perform
perform-keeps (submit job) store run_id old (found, done) = unfold save_job in ground arith
perform-keeps (claim_jobs w n u l) store run_id old (found, done) = unfold claim_due_jobs in found
perform-keeps (renew_lease id owner u) store run_id old (found, done) =
    unfold try_renew_job_lease in ground arith
perform-keeps (start_attempt id n owner) store run_id old (found, done) =
    unfold try_mark_job_running in ground arith
perform-keeps (cancel_one id) store run_id old (found, done) = unfold try_cancel_job in ground arith
perform-keeps (finish_attempt run status error due_at owner) store run_id old (found, done) =
    elim (Result-cases (finalize_attempt run status error due_at owner store)) [
      | inl ((store', made), e) ↦
          let (job, at, _) =
            finalize_attempt-Recorded run status error due_at owner store store' made e in
          let (written, _, _) =
            finalize_attempt-split run status error due_at owner store store' made job at e in
          let moved = settle_attempt run status error due_at owner job store in
          let same = settle_attempt-runs run status error due_at owner job store in
          let still : run_row run_id moved.0 ≡ some old = rw same found in
          rw (perform, e)
            (finalize_run-final (normalize_persisted_run run) moved.0 store' run_id old written
              still done)
      | inr (x, e) ↦ rw (perform, e) found
    ]

make-keeps :
    (call : RunCall) (store : Store) (run_id : String) (old : RunRecord)
    → HasFinished run_id old store
    → run_row run_id (make call store) ≡ some old
unfolding make
make-keeps (on_jobs call) store run_id old has = perform-keeps call store run_id old has
make-keeps (open_run run) store run_id old (found, _) =
    (insertion-keeps run store run_id old found).0
make-keeps (store_run run) store run_id old (found, _) =
    (insertion-keeps run store run_id old found).1

-- A finished run has the same row, in every column, after any calls.
pub make_all-keeps :
    (calls : List RunCall) (store : Store) (run_id : String) (old : RunRecord)
    → HasFinished run_id old store
    → run_row run_id (make_all calls store) ≡ some old
unfolding make_all
make_all-keeps [] store run_id old (found, _) = found
make_all-keeps (call ∷ calls) store run_id old has =
    let first = make-keeps call store run_id old has in
    make_all-keeps calls (make call store) run_id old (first, has.1)

-- What a finalisation recorded, and that it was finished.
finalize_attempt-HasFinished :
    (run : RunRecord) (status : JobStatus) (error : Option Message) (due_at : Option ℕ)
    (owner : String) (store store' : Store) (made : AttemptFinalization)
    → finalize_attempt run status error due_at owner store ≡ ok (store', made)
    → HasFinished run.id (run_values (normalize_persisted_run run)) store'
finalize_attempt-HasFinished run status error due_at owner store store' made h =
    let (job, at, recorded) =
      finalize_attempt-Recorded run status error due_at owner store store' made h in
    let (written, _, _) =
      finalize_attempt-split run status error due_at owner store store' made job at h in
    let f = finalize_run-Finalizes _ _ store' written in
    let stored = recorded.runs_after run.id in
    let value = run_values-status run in
    let (_, normal) = normalize-same run run in
    (ground (arith, eq_refl run.id), ground (arith, f.finished))

-- After a run was finalised, and after any calls that submit, claim, renew, start, finish or cancel
-- jobs or insert runs in between, the run's row is as it was recorded, and a finalisation under its
-- id with a finished status, for a job that is there, raises, naming the recorded status.
pub finalize_attempt_final :
    (run : RunRecord) (status : JobStatus) (error : Option Message) (due_at : Option ℕ)
    (owner : String) (store store' : Store) (made : AttemptFinalization) (calls : List RunCall)
    (again : RunRecord) (status' : JobStatus) (error' : Option Message) (due_at' : Option ℕ)
    (owner' : String) (job : JobRecord)
    → finalize_attempt run status error due_at owner store ≡ ok (store', made)
    → again.id ≡ run.id
    → is_finished again.status ≡ true
    → job_row again.job_id (make_all calls store') ≡ some job
    → (run_row run.id (make_all calls store') ≡ some (run_values (normalize_persisted_run run)))
      × (finalize_attempt again status' error' due_at' owner' (make_all calls store')
          ≡ raise (cannot_finalize_from run.id run.status))
finalize_attempt_final run status error due_at owner store store' made calls again status' error'
      due_at' owner' job h same done found =
    let stored = run_values (normalize_persisted_run run) in
    let has = finalize_attempt-HasFinished run status error due_at owner store store' made h in
    let later = make_all calls store' in
    let stays = make_all-keeps calls store' run.id stored has in
    let is_there : run_row again.id later ≡ some stored = rw same stays in
    let value = run_values-status run in
    let refused =
      finalize_attempt_refused again status' error' due_at' owner' later job stored done found
        is_there has.1 in
    (stays, rw (sym same) (refused ∙ ap raise (ap (cannot_finalize_from again.id) value)))
