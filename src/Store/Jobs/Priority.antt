-- ===== src/Store/Jobs/Priority.antt =====
-- Which due jobs a claim selects: the order of claim_due_jobs, by priority and creation time.
use goblin_king.Base.{
  ℕ, ◌≤◌, ◌==◌, ◌≡◌, true, false, List, [], ◌∷◌, arith, All, All-both, inl, inr, drop, any, take,
  take-append-drop, All-append, All-always, All-map, subst, ◌⊎◌,
}
use goblin_king.Base.Int.{◌≤ℤ◌}
use goblin_king.Contracts.{JobRecord}
use goblin_king.Table.{order_by, select_where}
use goblin_king.Table.Sorted.{order_by-IsSorted, take-before-drop, order_by-All}
use goblin_king.Table.Search.{select_where-All}
use goblin_king.Table.Keyed.{any_self}
use goblin_king.Store.Jobs.{job_key, is_claimable, claims_before, due_rows}

claims_before_total : (a b : JobRecord) → claims_before a b ≡ false → claims_before b a ≡ true
unfolding claims_before
claims_before_total a b h = ground arith

claims_before_trans :
    (a b c : JobRecord)
    → claims_before a b ≡ true
    → claims_before b c ≡ true
    → claims_before a c ≡ true
unfolding claims_before
claims_before_trans a b c h k = ground arith

-- By descending priority, and at one priority by creation time.
abbrev pub IsAhead : JobRecord → JobRecord → Type 0
IsAhead a b = (b.priority ≤ℤ a.priority) × (a.priority ≤ℤ b.priority → a.created_at ≤ b.created_at)

claims_before-IsAhead : (a b : JobRecord) → claims_before a b ≡ true → IsAhead a b
unfolding claims_before
claims_before-IsAhead a b h = (ground arith, (λ le. ground arith))

All-swap :
    {A B : Type 0} (R : A → B → Type 0) (xs : List A) (ys : List B)
    → All (λ x. All (λ y. R x y) ys) xs
    → All (λ y. All (λ x. R x y) xs) ys
All-swap R [] ys h = All-always (λ y. tt) ys
All-swap R (x ∷ xs) ys h =
    All-both _ _ _ (λ y here behind. (here, behind)) ys h.0 (All-swap R xs ys h.1)

-- A claimable job is selected, or every selected job is ahead of it.
abbrev pub IsServed : (selected : List JobRecord) → JobRecord → Type 0
IsServed selected job =
    (any (λ row. row.id == job.id) selected ≡ true) ⊎ All (λ row. IsAhead row job) selected

-- Each claimable job is selected by a claim, under its id, or every selected job has a higher
-- priority, or the same priority and no later creation time.
pub due_rows-first :
    (now limit : ℕ) (jobs : List JobRecord)
    → All (λ job. is_claimable now job ≡ true → IsServed (due_rows now limit jobs) job) jobs
unfolding due_rows
due_rows-first now limit jobs =
    let claimable = select_where (is_claimable now) jobs in
    let sorted = order_by claims_before claimable in
    let served = IsServed (take limit sorted) in
    let ordered =
      take-before-drop claims_before limit sorted
        (order_by-IsSorted claims_before claims_before_total claims_before_trans claimable) in
    let later : All served (drop limit sorted) =
      All-map _ _ (λ job all. inr (All-map _ _ (λ row e. claims_before-IsAhead row job e) _ all))
        (drop limit sorted)
        (All-swap (λ row job. claims_before row job ≡ true) (take limit sorted) (drop limit sorted)
          ordered) in
    let taken : All served (take limit sorted) =
      All-map _ _ (λ job e. inl e) (take limit sorted) (any_self job_key (take limit sorted)) in
    let all : All served sorted =
      subst (All served) (take-append-drop limit sorted)
        (All-append served (take limit sorted) (drop limit sorted) taken later) in
    select_where-All served (is_claimable now) jobs
      (order_by-All claims_before served claimable all)
