-- ===== src/Fanout/Totals.antt =====
-- What the counts of a fanout say (`_counts` of fanout.py).
use goblin_king.Base.{
  ℕ, suc, ◌+◌, String, ◌==◌, eq_iff, ◌≡◌, refl, false, List, [], ◌∷◌, length, arith, if◌then◌else◌,
}
use goblin_king.Contracts.{JobRecord, JobStatus, status_text}
use goblin_king.Fanout.{get_count, set_count, count_statuses, counts_of}

-- The number of jobs whose status has the text.
unfoldable pub tally : String → List JobRecord → ℕ
tally key [] = 0
tally key (job ∷ jobs) =
    if status_text job.status == key then suc (tally key jobs) else tally key jobs

get_count-set_count :
    (key k : String) (n : ℕ) (counts : List (String × ℕ))
    → get_count key (set_count k n counts) ≡ (if k == key then n else get_count key counts)
unfolding get_count set_count
get_count-set_count key k n [] = refl
get_count-set_count key k n ((j, m) ∷ counts) =
    ground (arith, eq_iff j k, eq_iff j key, eq_iff k key, get_count-set_count key k n counts)

get_count-count_statuses :
    (key : String) (jobs : List JobRecord) (counts : List (String × ℕ))
    → get_count key (count_statuses jobs counts) ≡ get_count key counts + tally key jobs
unfolding count_statuses tally
get_count-count_statuses key [] counts = omega arith
get_count-count_statuses key (job ∷ jobs) counts =
    let status = status_text job.status in
    let n = get_count status counts + 1 in
    ground (
      arith,
      eq_iff status key,
      get_count-set_count key status n counts,
      get_count-count_statuses key jobs (set_count status n counts),
    )

status_text-total : (status : JobStatus) → (status_text status == "total") ≡ false
unfolding status_text
status_text-total JobStatus.queued = refl
status_text-total JobStatus.leased = refl
status_text-total JobStatus.running = refl
status_text-total JobStatus.completed = refl
status_text-total JobStatus.failed = refl
status_text-total JobStatus.retrying = refl
status_text-total JobStatus.timed_out = refl
status_text-total JobStatus.cancelled = refl

-- The tallies of the eight statuses.
abbrev pub tally_all : List JobRecord → ℕ
tally_all jobs =
    (tally "queued" jobs + tally "leased" jobs + (tally "running" jobs + tally "completed" jobs))
    + (tally "failed" jobs
        + tally "retrying" jobs
        + (tally "timed_out" jobs + tally "cancelled" jobs))

tally_one :
    (status : JobStatus) (job : JobRecord) (jobs : List JobRecord)
    → job.status ≡ status
    → tally_all (job ∷ jobs) ≡ suc (tally_all jobs)
unfolding tally status_text
tally_one JobStatus.queued job jobs e = rw e (omega arith)
tally_one JobStatus.leased job jobs e = rw e (omega arith)
tally_one JobStatus.running job jobs e = rw e (omega arith)
tally_one JobStatus.completed job jobs e = rw e (omega arith)
tally_one JobStatus.failed job jobs e = rw e (omega arith)
tally_one JobStatus.retrying job jobs e = rw e (omega arith)
tally_one JobStatus.timed_out job jobs e = rw e (omega arith)
tally_one JobStatus.cancelled job jobs e = rw e (omega arith)

tally_all-length : (jobs : List JobRecord) → tally_all jobs ≡ length jobs
unfolding tally
tally_all-length [] = refl
tally_all-length (job ∷ jobs) =
    omega (arith, tally_one job.status job jobs refl, tally_all-length jobs)

-- A count is looked up by a status's text.
abbrev count_of : String → List JobRecord → ℕ
count_of key jobs = get_count key (counts_of jobs)

-- The counts of a batch: each status has its number of jobs, "total" has the number of all jobs, and
-- the counts of the eight statuses add up to it.
pub record IsCounted (jobs : List JobRecord) (counts : List (String × ℕ)) : Type 0 where
  pub by_status :
      (status : JobStatus) → get_count (status_text status) counts ≡ tally (status_text status) jobs
  pub total : get_count "total" counts ≡ length jobs
  pub adds_up : tally_all jobs ≡ get_count "total" counts

-- The counts of a batch hold, under each status, the number of jobs with it, and under "total" the
-- number of all jobs, to which the eight statuses add up.
pub counts_of-IsCounted : (jobs : List JobRecord) → IsCounted jobs (counts_of jobs)
unfolding counts_of get_count
counts_of-IsCounted jobs =
    let counted = count_statuses jobs [] in
    let total : get_count "total" (set_count "total" (length jobs) counted) ≡ length jobs =
      get_count-set_count "total" "total" (length jobs) counted in
    record {
      by_status = λ status. ground (
        arith,
        status_text-total status,
        eq_iff "total" (status_text status),
        eq_iff (status_text status) "total",
        get_count-set_count (status_text status) "total" (length jobs) counted,
        get_count-count_statuses (status_text status) jobs [],
      );
      total = total;
      adds_up = omega (arith, total, tally_all-length jobs);
    }
