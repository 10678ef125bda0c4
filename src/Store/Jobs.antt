-- ===== src/Store/Jobs.antt =====
-- The jobs table: SQLiteStore's methods that submit, claim, renew, start, finish, cancel, count and
-- list jobs (store.py), each as one transaction.

pub mod Lookup
pub mod Claim
pub mod Priority
pub mod Exclusive
use goblin_king.Base.{
  ℕ, String, ◌==◌, Bool, true, false, not, ◌&&◌, ◌||◌, Option, none, some, List, [], ◌∷◌, ◌++◌, map,
  if◌then◌else◌, eqb, ltb, leb, is_text, same_text, take, drop, max, min, Result, ok, raise, suc,
  zero,
}
use goblin_king.Base.Int.{ℤ, pos, leb_ℤ, eqb_ℤ, pos_part}
use goblin_king.Contracts.{
  JobRecord, JobStatus, Message, text, is_terminal, is_held, is_waiting, status_text,
}
use goblin_king.Table.{select_where, update_where, row_count, order_by, get_row, insert_row}
use goblin_king.Store.State.{Store, StoreError, integrity_error}

abbrev pub job_key : JobRecord → String
job_key job = job.id

-- `_row_to_job`: a falsy priority reads as 100. The other columns come back as they are.
abbrev pub row_to_job : JobRecord → JobRecord
row_to_job row = record row {
  priority = if eqb_ℤ row.priority (pos 0) then pos 100 else row.priority;
}

unfoldable pub save_job : JobRecord → Store → Result StoreError Store
save_job job store = elim (insert_row job_key job store.jobs) [
  | none ↦ raise integrity_error
  | some jobs ↦ ok (record store { jobs = jobs })
]

unfoldable pub get_job : String → Store → Option JobRecord
get_job job_id store = elim (get_row job_key job_id store.jobs) [
  | none ↦ none
  | some row ↦ some (row_to_job row)
]

-- `leased_until IS NOT NULL AND leased_until <= now`
abbrev pub has_lapsed : ℕ → Option ℕ → Bool
has_lapsed now none = false
has_lapsed now (some until) = leb until now

unfoldable pub claimable_status : ℕ → JobRecord → Bool
claimable_status now job =
    is_waiting job.status || is_held job.status && has_lapsed now job.leased_until

-- `due_at IS NULL OR due_at <= now`
abbrev pub is_due_at : ℕ → Option ℕ → Bool
is_due_at now none = true
is_due_at now (some due_at) = leb due_at now

-- The WHERE of a claim: a claimable status and a due time.
unfoldable pub is_claimable : ℕ → JobRecord → Bool
unfolding claimable_status
is_claimable now job = claimable_status now job && is_due_at now job.due_at

-- ORDER BY priority DESC, created_at
unfoldable pub claims_before : JobRecord → JobRecord → Bool
claims_before a b =
    not (leb_ℤ a.priority b.priority)
    || eqb_ℤ a.priority b.priority && leb a.created_at b.created_at

unfoldable pub lease_job : (worker_id : String) (lease_until : ℕ) → JobRecord → JobRecord
lease_job worker_id lease_until job = record job {
  status = JobStatus.leased;
  lease_owner = some worker_id;
  leased_until = some lease_until;
}

-- The SELECT of a claim.
unfoldable pub due_rows : (now limit : ℕ) → List JobRecord → List JobRecord
due_rows now limit jobs = take limit (order_by claims_before (select_where (is_claimable now) jobs))

-- The loop of a claim over the selected rows: the table and the jobs that were claimed.
unfoldable pub claim_rows :
    (worker_id : String) (now lease_until : ℕ)
    → List JobRecord
    → List JobRecord
    → List JobRecord × List JobRecord
claim_rows worker_id now lease_until [] jobs = (jobs, [])
claim_rows worker_id now lease_until (row ∷ rows) jobs =
    let chosen : JobRecord → Bool = λ job. job.id == row.id && is_claimable now job in
    let (jobs', claimed) =
      claim_rows worker_id now lease_until rows
        (update_where chosen (lease_job worker_id lease_until) jobs) in
    if eqb (row_count chosen jobs) 1
    then (jobs', row_to_job (lease_job worker_id lease_until row) ∷ claimed)
    else (jobs', claimed)

unfoldable pub claim_due_jobs :
    (worker_id : String) (now lease_until limit : ℕ) → Store → Store × List JobRecord
claim_due_jobs worker_id now lease_until limit store =
    let (jobs, claimed) =
      claim_rows worker_id now lease_until (due_rows now limit store.jobs) store.jobs in
    (record store { jobs = jobs }, claimed)

-- An UPDATE of the row under one id that passes a further test: the store and the row count.
abbrev pub update_job : String → (JobRecord → Bool) → (JobRecord → JobRecord) → Store → Store × ℕ
update_job job_id test change store =
    let chosen : JobRecord → Bool = λ job. job.id == job_id && test job in
    (record store { jobs = update_where chosen change store.jobs }, row_count chosen store.jobs)

-- `extended_until`: a renewal never shortens a lease.
abbrev pub extended_until : ℕ → Option ℕ → ℕ
extended_until lease_until none = lease_until
extended_until lease_until (some until) = if ltb until lease_until then lease_until else until

-- The WHERE and the SET of a renewal.
unfoldable pub may_renew : String → JobRecord → Bool
may_renew expected_lease_owner job =
    is_held job.status && is_text job.lease_owner expected_lease_owner

unfoldable pub renew_job : ℕ → JobRecord → JobRecord
renew_job lease_until job = record job {
  leased_until = some (extended_until lease_until job.leased_until);
}

unfoldable pub try_renew_job_lease :
    (job_id expected_lease_owner : String) (lease_until : ℕ) → Store → Store × Bool
unfolding may_renew renew_job
try_renew_job_lease job_id expected_lease_owner lease_until store =
    let (store', rowcount) =
      update_job job_id (may_renew expected_lease_owner) (renew_job lease_until) store in
    (store', eqb rowcount 1)

unfoldable pub start_job : ℕ → JobRecord → JobRecord
start_job attempt_count job = record job {
  status = JobStatus.running;
  attempt_count = attempt_count;
}

unfoldable pub mark_job_running : (job_id : String) (attempt_count : ℕ) → Store → Store
unfolding start_job
mark_job_running job_id attempt_count store =
    (update_job job_id (λ _. true) (start_job attempt_count) store).0

unfoldable pub may_start : String → JobRecord → Bool
may_start expected_lease_owner job = elim job.status [
  | JobStatus.leased ↦ is_text job.lease_owner expected_lease_owner
  | _ ↦ false
]

unfoldable pub try_mark_job_running :
    (job_id : String) (attempt_count : ℕ) (expected_lease_owner : String) → Store → Store × Bool
unfolding may_start start_job
try_mark_job_running job_id attempt_count expected_lease_owner store =
    let (store', rowcount) =
      update_job job_id (may_start expected_lease_owner) (start_job attempt_count) store in
    (store', eqb rowcount 1)

-- `exclude_job_id is None or id != exclude_job_id`
abbrev pub is_counted : Option String → JobRecord → Bool
is_counted none job = true
is_counted (some exclude_job_id) job = not (job.id == exclude_job_id)

unfoldable pub count_active_jobs : (kind : String) (exclude_job_id : Option String) → Store → ℕ
count_active_jobs kind exclude_job_id store =
    row_count (λ job. (job.kind == kind && is_held job.status) && is_counted exclude_job_id job)
      store.jobs

-- A project of None counts the jobs that have no project.
unfoldable pub count_active_project_jobs : (project_id exclude_job_id : Option String) → Store → ℕ
count_active_project_jobs project_id exclude_job_id store =
    row_count
      (λ job.
        (is_held job.status && same_text job.project_id project_id)
        && is_counted exclude_job_id job)
      store.jobs

-- The values that finish_job and finalize_attempt set; the due time changes only if one is given.
unfoldable pub settle_job : JobStatus → Option Message → Option ℕ → JobRecord → JobRecord
settle_job status last_error due_at job = record job {
  status = status;
  last_error = last_error;
  lease_owner = none;
  leased_until = none;
  due_at = elim due_at [ none ↦ job.due_at | some at ↦ some at ];
}

unfoldable pub finish_job :
    (job_id : String) (status : JobStatus) (last_error : Option Message) (due_at : Option ℕ)
    → Store
    → Store
unfolding settle_job
finish_job job_id status last_error due_at store =
    (update_job job_id (λ _. true) (settle_job status last_error due_at) store).0

unfoldable pub stop_job : JobRecord → JobRecord
stop_job job = record job {
  status = JobStatus.cancelled;
  lease_owner = none;
  leased_until = none;
  last_error = some (text "cancelled by API");
}

unfoldable pub try_cancel_job : (job_id : String) → Store → Store × Option JobRecord × Bool
unfolding stop_job get_job
try_cancel_job job_id store =
    let (store', rowcount) =
      update_job job_id (λ job. not (is_terminal job.status)) stop_job store in
    (store', get_job job_id store', eqb rowcount 1)

unfoldable pub cancel_job : (job_id : String) → Store → Store × Option JobRecord
unfolding try_cancel_job
cancel_job job_id store = let (store', job, _) = try_cancel_job job_id store in (store', job)

-- ORDER BY created_at, and the same descending
abbrev pub created_before : JobRecord → JobRecord → Bool
created_before a b = leb a.created_at b.created_at

abbrev pub created_after : JobRecord → JobRecord → Bool
created_after a b = leb b.created_at a.created_at

unfoldable pub list_jobs : Store → List JobRecord
list_jobs store = map row_to_job (order_by created_before store.jobs)

-- A filter that is None lets every row through.
abbrev pub passes : Option String → Option String → Bool
passes none value = true
passes (some wanted) value = is_text value wanted

-- `max(1, min(limit, 500))`, and `max(offset, 0)` is the positive part of the offset.
abbrev pub page_limit : ℤ → ℕ
page_limit limit = max 1 (min (pos_part limit) 500)

unfoldable pub list_jobs_page :
    (project_id status : Option String) (limit offset : ℤ) → Store → List JobRecord
unfolding status_text
list_jobs_page project_id status limit offset store =
    let matching =
      select_where
        (λ job. passes project_id job.project_id && passes status (some (status_text job.status)))
        store.jobs in
    map row_to_job
      (take (page_limit limit) (drop (pos_part offset) (order_by created_after matching)))

-- The jobs of one fanout batch, by creation time.
unfoldable pub list_fanout_jobs : (fanout_id : String) → Store → List JobRecord
list_fanout_jobs fanout_id store =
    map row_to_job
      (order_by created_before (select_where (λ job. is_text job.fanout_id fanout_id) store.jobs))
