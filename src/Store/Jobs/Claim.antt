-- ===== src/Store/Jobs/Claim.antt =====
-- Claiming due jobs: which jobs are leased, in which order, and that no second scheduler gets a job
-- whose lease runs.
use mathlib.Core.Option
use goblin_king.Base.{
  ℕ, ◌≤◌, String, ◌==◌, eq_iff, ◌≡◌, refl, Bool, true, false, ◌&&◌, ◌||◌, some, List, [], ◌∷◌, map,
  arith, if◌then◌else◌, All, All-both, Bool-cases, Option-cases, inl, inr, any, length,
  length-take-le, length-map, All-always, All-of-map, sym, subst,
}
use goblin_king.Contracts.{JobRecord, JobStatus}
use goblin_king.Table.{get_row, update_where, row_count, select_where}
use goblin_king.Table.Laws.{
  IsKeyed, get_row-update_where, update_where-IsKeyed, get_row-key, row_count-key,
}
use goblin_king.Table.Sorted.{All-order_by}
use goblin_king.Table.Keyed.{
  AreRows, AreRows-self, All-select_where, All-take, select_where-IsKeyed, order_by-IsKeyed,
  take-IsKeyed, any_self, get_row-none-All,
}
use goblin_king.Store.State.{Store}
use goblin_king.Store.Jobs.{
  job_key, row_to_job, is_claimable, claims_before, lease_job, due_rows, claim_rows, claim_due_jobs,
}
use goblin_king.Store.Jobs.Lookup.{job_row, HasJobIds}

-- The rows of a claim are rows of the table, they are claimable, and they have distinct ids.
pub due_rows-AreRows :
    (now limit : ℕ) (jobs : List JobRecord)
    → IsKeyed job_key jobs
    → AreRows job_key jobs (due_rows now limit jobs)
unfolding due_rows
due_rows-AreRows now limit jobs u = All-take job_key _ limit _ (
    All-order_by claims_before _ _
      (All-select_where job_key _ (is_claimable now) jobs (AreRows-self job_key jobs u)))

select_where-passes :
    (p : JobRecord → Bool) (t : List JobRecord) → All (λ x. p x ≡ true) (select_where p t)
unfolding select_where
select_where-passes p [] = tt
select_where-passes p (x ∷ t) = elim (Bool-cases (p x)) [
  | inl e ↦ rw e (e, select_where-passes p t)
  | inr e ↦ rw e (select_where-passes p t)
]

pub due_rows-claimable :
    (now limit : ℕ) (jobs : List JobRecord)
    → All (λ row. is_claimable now row ≡ true) (due_rows now limit jobs)
unfolding due_rows
due_rows-claimable now limit jobs =
    All-take job_key _ limit _
      (All-order_by claims_before _ _ (select_where-passes (is_claimable now) jobs))

due_rows-IsKeyed :
    (now limit : ℕ) (jobs : List JobRecord)
    → IsKeyed job_key jobs
    → IsKeyed job_key (due_rows now limit jobs)
unfolding due_rows
due_rows-IsKeyed now limit jobs u = take-IsKeyed job_key limit _ (
    order_by-IsKeyed job_key claims_before _
      (select_where-IsKeyed job_key (is_claimable now) jobs u))

module _ (worker_id : String) (now lease_until : ℕ) where
  abbrev lease_if : Bool → JobRecord → JobRecord
  lease_if hit job =
      if hit && is_claimable now job then lease_job worker_id lease_until job else job

  lease_twice :
      (job : JobRecord)
      → lease_job worker_id lease_until (lease_job worker_id lease_until job)
        ≡ lease_job worker_id lease_until job
  unfolding lease_job
  lease_twice job = refl

  lease_if_twice :
      (a b : Bool) (job : JobRecord) → lease_if b (lease_if a job) ≡ lease_if (a || b) job
  lease_if_twice true true job = ground (arith, lease_twice job)
  lease_if_twice true false job = ground arith
  lease_if_twice false b job = ground arith

  -- A lookup sees a claimed row leased, and every other row as it was.
  claim_rows-row :
      (rows jobs : List JobRecord) (k : String)
      → get_row job_key k (claim_rows worker_id now lease_until rows jobs).0
        ≡ Option.map (lease_if (any (λ row. row.id == k) rows)) (get_row job_key k jobs)
  unfolding claim_rows
  claim_rows-row [] jobs k = elim (Option-cases (get_row job_key k jobs)) [
    | inl e ↦ rw e
    | inr (job, e) ↦ rw e
  ]
  claim_rows-row (row ∷ rows) jobs k =
      let chosen : JobRecord → Bool = λ job. job.id == row.id && is_claimable now job in
      let change = lease_job worker_id lease_until in
      let seen =
        get_row-update_where job_key k chosen change jobs (λ job _. unfold lease_job in refl) in
      let rest = claim_rows-row rows (update_where chosen change jobs) k in
      elim (Option-cases (get_row job_key k jobs)) [
        | inl e ↦ ground arith
        | inr (job, e) ↦
            let same : job.id ≡ k = get_row-key job_key k jobs job e in
            let hit : (job.id == row.id) ≡ (row.id == k) =
              ground (arith, eq_iff row.id k, eq_iff job.id row.id) in
            let twice = lease_if_twice (row.id == k) (any (λ r. r.id == k) rows) job in
            let first : get_row job_key k (update_where chosen change jobs)
                ≡ some (lease_if (row.id == k) job) =
              ground arith in
            ground arith
      ]

  -- Every selected row is claimed, in the order of the selection.
  claim_rows-claimed :
      (rows jobs : List JobRecord)
      → IsKeyed job_key jobs
      → IsKeyed job_key rows
      → AreRows job_key jobs rows
      → All (λ row. is_claimable now row ≡ true) rows
      → (claim_rows worker_id now lease_until rows jobs).1
        ≡ map (λ row. row_to_job (lease_job worker_id lease_until row)) rows
  unfolding claim_rows
  claim_rows-claimed [] jobs u distinct at ready = refl
  claim_rows-claimed (row ∷ rows) jobs u distinct at ready =
      let chosen : JobRecord → Bool = λ job. job.id == row.id && is_claimable now job in
      let change = lease_job worker_id lease_until in
      let keeps : (job : JobRecord) → chosen job ≡ true → job_key (change job) ≡ job_key job =
        λ job _. unfold lease_job in refl in
      let one : row_count chosen jobs ≡ 1 =
        ground (arith, row_count-key job_key row.id (is_claimable now) jobs u) in
      let others = get_row-none-All job_key row.id rows distinct.0 in
      let at' : AreRows job_key (update_where chosen change jobs) rows =
        All-both _ _ _
          (λ r (found : get_row job_key (job_key r) jobs ≡ some r)
              (other : (job_key r == row.id) ≡ false).
            ground (arith, get_row-update_where job_key r.id chosen change jobs keeps))
          rows at.1 others in
      let rest =
        claim_rows-claimed rows (update_where chosen change jobs)
          (update_where-IsKeyed job_key chosen change jobs keeps u) distinct.1 at' ready.1 in
      ground arith

  claim_rows-IsKeyed :
      (rows jobs : List JobRecord)
      → IsKeyed job_key jobs
      → IsKeyed job_key (claim_rows worker_id now lease_until rows jobs).0
  unfolding claim_rows
  claim_rows-IsKeyed [] jobs u = u
  claim_rows-IsKeyed (row ∷ rows) jobs u =
      let chosen : JobRecord → Bool = λ job. job.id == row.id && is_claimable now job in
      let change = lease_job worker_id lease_until in
      let rest =
        claim_rows-IsKeyed rows (update_where chosen change jobs)
          (update_where-IsKeyed job_key chosen change jobs (λ job _. unfold lease_job in refl) u) in
      ground arith

-- The lease columns of a claimed job.
abbrev pub IsLeasedTo : (worker_id : String) (lease_until : ℕ) → JobRecord → Type 0
IsLeasedTo worker_id lease_until job =
    (job.status ≡ JobStatus.leased)
    × (job.lease_owner ≡ some worker_id)
    × (job.leased_until ≡ some lease_until)

module _ (worker_id : String) (now lease_until limit : ℕ) (store : Store) where
  abbrev claim_of : Store × List JobRecord
  claim_of = claim_due_jobs worker_id now lease_until limit store

  abbrev selected : List JobRecord
  selected = due_rows now limit store.jobs

  -- A lookup after a claim: the selected jobs are leased to the worker, all others are untouched.
  pub claim_due_jobs-row :
      (k : String)
      → job_row k claim_of.0
        ≡ Option.map
            (λ job.
              if any (λ row. row.id == k) selected && is_claimable now job
              then lease_job worker_id lease_until job
              else job)
            (job_row k store)
  unfolding claim_due_jobs
  claim_due_jobs-row k = claim_rows-row worker_id now lease_until selected store.jobs k

  -- Where job ids are distinct, a claim returns exactly the selected jobs, leased to the worker until
  -- the given time, in the order of the selection; it returns at most as many as the limit.
  pub claim_due_jobs-claimed :
      HasJobIds store
      → (claim_of.1 ≡ map (λ row. row_to_job (lease_job worker_id lease_until row)) selected)
        × (length claim_of.1 ≤ limit)
        × All (IsLeasedTo worker_id lease_until) claim_of.1
  unfolding claim_due_jobs
  claim_due_jobs-claimed u =
      let e =
        claim_rows-claimed worker_id now lease_until selected store.jobs u
          (due_rows-IsKeyed now limit store.jobs u) (due_rows-AreRows now limit store.jobs u)
          (due_rows-claimable now limit store.jobs) in
      let one : (row : JobRecord)
          → IsLeasedTo worker_id lease_until (row_to_job (lease_job worker_id lease_until row)) =
        λ row. unfold lease_job in (refl, refl, refl) in
      let leased : All (IsLeasedTo worker_id lease_until)
          (map (λ row. row_to_job (lease_job worker_id lease_until row)) selected) =
        All-of-map (IsLeasedTo worker_id lease_until) _ selected (All-always one selected) in
      (
        e,
        rw e (rw length-map (unfold due_rows in length-take-le limit _)),
        subst (All (IsLeasedTo worker_id lease_until)) (sym e) leased,
      )

  pub claim_due_jobs-HasJobIds : HasJobIds store → HasJobIds claim_of.0
  unfolding claim_due_jobs
  claim_due_jobs-HasJobIds u = claim_rows-IsKeyed worker_id now lease_until selected store.jobs u

  -- The row of each selected job after the claim.
  pub selected_after :
      HasJobIds store
      → All (λ row. job_row row.id claim_of.0 ≡ some (lease_job worker_id lease_until row)) selected
  selected_after u =
      All-both _ _ _
        (λ row
            (both : (get_row job_key (job_key row) store.jobs ≡ some row)
              × (is_claimable now row ≡ true))
            (listed : any (λ y. job_key y == job_key row) selected ≡ true).
          ground (arith, claim_due_jobs-row row.id))
        selected
        (All-both _ _ _
          (λ row (a : get_row job_key (job_key row) store.jobs ≡ some row)
              (b : is_claimable now row ≡ true).
            (a, b))
          selected (due_rows-AreRows now limit store.jobs u)
          (due_rows-claimable now limit store.jobs))
        (any_self job_key selected)
