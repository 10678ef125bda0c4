-- ===== src/Store/Jobs/Exclusive.antt =====
-- While its lease runs, a claimed job is not claimed again.
use goblin_king.Base.{
  ℕ, ◌<◌, String, ◌==◌, eq_iff, ◌≡◌, true, false, some, List, [], ◌∷◌, map, arith, All, All-map,
  All-both, All-of-map, Bool-cases, inl, inr,
}
use goblin_king.Contracts.{JobRecord}
use goblin_king.Table.{get_row}
use goblin_king.Store.State.{Store}
use goblin_king.Store.Jobs.{job_key, row_to_job, is_claimable, lease_job, due_rows, claim_due_jobs}
use goblin_king.Store.Jobs.Lookup.{job_row, HasJobIds}
use goblin_king.Store.Jobs.Claim.{
  claim_due_jobs-claimed, claim_due_jobs-HasJobIds, selected_after, due_rows-AreRows,
  due_rows-claimable,
}

-- A job whose lease has not run out is not claimable.
pub leased_not_claimable :
    (worker_id : String) (now lease_until : ℕ) (job : JobRecord)
    → now < lease_until
    → is_claimable now (lease_job worker_id lease_until job) ≡ false
unfolding is_claimable lease_job
leased_not_claimable w n u job h = ground arith

apart :
    (worker_id : String) (now lease_until : ℕ) (store : Store) (a b : JobRecord)
    → now < lease_until
    → job_row a.id store ≡ some (lease_job worker_id lease_until a)
    → job_row b.id store ≡ some b
    → is_claimable now b ≡ true
    → (a.id == b.id) ≡ false
apart w n u store a b h ha hb ready = elim (Bool-cases (a.id == b.id)) [
  | inl same ↦ ground (arith, eq_iff a.id b.id, leased_not_claimable w n u a h)
  | inr other ↦ other
]

abbrev Apart : List JobRecord → JobRecord → Type 0
Apart rows b = All (λ a. (a.id == b.id) ≡ false) rows

Apart-map :
    (first second : String) (until until' : ℕ) (rows rows' : List JobRecord)
    → All (Apart rows) rows'
    → All
        (Apart (map (λ row. row_to_job (lease_job first until row)) rows))
        (map (λ row. row_to_job (lease_job second until' row)) rows')
unfolding lease_job
Apart-map first second until until' rows [] h = tt
Apart-map first second until until' rows (b ∷ rows') h = (
  All-of-map (λ a. (a.id == b.id) ≡ false) (λ row. row_to_job (lease_job first until row)) rows h.0,
  Apart-map first second until until' rows rows' h.1,
)

-- Two claims one after the other, by the same scheduler or by two: if the second is made before
-- the leases of the first run out, no job is returned by both.
pub claim_due_jobs_exclusive :
    (first second : String) (now lease_until limit now' lease_until' limit' : ℕ) (store : Store)
    → HasJobIds store
    → now' < lease_until
    → let (store', claimed) = claim_due_jobs first now lease_until limit store in
      let (_, claimed') = claim_due_jobs second now' lease_until' limit' store' in
      All (λ b. All (λ a. (a.id == b.id) ≡ false) claimed) claimed'
claim_due_jobs_exclusive first second now lease_until limit now' lease_until' limit' store ids
      running =
    let store' = (claim_due_jobs first now lease_until limit store).0 in
    let ids' = claim_due_jobs-HasJobIds first now lease_until limit store ids in
    let held = selected_after first now lease_until limit store ids in
    let rows : List JobRecord = due_rows now limit store.jobs in
    let rows' : List JobRecord = due_rows now' limit' store'.jobs in
    let at = due_rows-AreRows now' limit' store'.jobs ids' in
    let ready = due_rows-claimable now' limit' store'.jobs in
    let separate : All (λ b. All (λ a. (a.id == b.id) ≡ false) rows) rows' =
      All-both _ _ _
        (λ b (found : get_row job_key (job_key b) store'.jobs ≡ some b)
            (may : is_claimable now' b ≡ true).
          All-map _ _
            (λ a (leased : job_row a.id store' ≡ some (lease_job first lease_until a)).
              apart first now' lease_until store' a b running leased found may)
            rows held)
        rows' at ready in
    rw
      (
        (claim_due_jobs-claimed second now' lease_until' limit' store' ids').0,
        (claim_due_jobs-claimed first now lease_until limit store ids).0,
      )
      (Apart-map first second lease_until lease_until' rows rows' separate)
