-- ===== src/Store/Jobs/Lookup.antt =====
-- What a lookup by id sees after one UPDATE of the jobs table, and that ids stay distinct.
use mathlib.Core.Option
use goblin_king.Base.{
  String, ◌==◌, eq_iff, ◌≡◌, Bool, true, false, ◌&&◌, Option, none, some, arith, if◌then◌else◌, eqb,
  Option-cases, inl, inr,
}
use goblin_king.Contracts.{JobRecord}
use goblin_king.Table.{get_row}
use goblin_king.Table.Laws.{
  IsKeyed, get_row-update_where, update_where-IsKeyed, get_row-key, row_count-key,
}
use goblin_king.Store.State.{Store}
use goblin_king.Store.Jobs.{job_key, update_job}

-- The row under one id in the jobs table.
abbrev pub job_row : String → Store → Option JobRecord
job_row job_id store = get_row job_key job_id store.jobs

-- No two jobs share an id.
abbrev pub HasJobIds : Store → Type 0
HasJobIds store = IsKeyed job_key store.jobs

module _ (job_id : String) (test : JobRecord → Bool) (change : JobRecord → JobRecord)
    (store : Store) (keeps : (job : JobRecord) → (change job).id ≡ job.id) where
  -- Only the row under the id changes, and only if it passes the test.
  pub job_row-update_job :
      (k : String)
      → job_row k (update_job job_id test change store).0
        ≡ Option.map
            (λ job. if job.id == job_id && test job then change job else job)
            (job_row k store)
  job_row-update_job k = get_row-update_where job_key k _ change store.jobs (λ job _. keeps job)

  pub update_job-HasJobIds : HasJobIds store → HasJobIds (update_job job_id test change store).0
  update_job-HasJobIds u = update_where-IsKeyed job_key _ change store.jobs (λ job _. keeps job) u

  -- A method that tests its row count reports whether the row was there and passed the test.
  pub update_job-changed :
      HasJobIds store
      → eqb (update_job job_id test change store).1 1
        ≡ elim (job_row job_id store) [ none ↦ false | some job ↦ test job ]
  update_job-changed u = ground (arith, row_count-key job_key job_id test store.jobs u)

-- An UPDATE by id alone, where the row is there.
pub job_row-update_found :
    (job_id : String) (change : JobRecord → JobRecord) (store : Store) (job : JobRecord)
    (k : String)
    → ((row : JobRecord) → (change row).id ≡ row.id)
    → job_row job_id store ≡ some job
    → job_row k (update_job job_id (λ _. true) change store).0
      ≡ (if job_id == k then some (change job) else job_row k store)
job_row-update_found job_id change store job k keeps found =
    let seen = job_row-update_job job_id (λ _. true) change store keeps k in
    elim (Option-cases (job_row k store)) [
      | inl absent ↦ ground (arith, eq_iff job_id k)
      | inr (row, at) ↦
          ground
            (arith, eq_iff job_id k, eq_iff row.id job_id, get_row-key job_key k store.jobs row at)
    ]
