-- ===== src/Fanout/Outcome.antt =====
-- When a fanout has each of its statuses (`derive_fanout_status` of fanout.py).
use goblin_king.Base.{
  ◌≡◌, refl, Bool, true, false, not, ◌&&◌, ◌||◌, List, [], ◌∷◌, map, any, all, arith, if◌then◌else◌,
}
use goblin_king.Contracts.{JobRecord, JobStatus, is_terminal, is_completed, is_active}
use goblin_king.Fanout.{FanoutStatus, is_unsuccessful, status_of, derive_fanout_status}

abbrev pub is_empty_batch : List JobRecord → Bool
is_empty_batch [] = true
is_empty_batch (_ ∷ _) = false

-- Some job of the batch has a status that passes.
abbrev pub some_job : (JobStatus → Bool) → List JobRecord → Bool
some_job p jobs = any (λ job. p job.status) jobs

abbrev pub every_job : (JobStatus → Bool) → List JobRecord → Bool
every_job p jobs = all (λ job. p job.status) jobs

abbrev pub same_outcome : FanoutStatus → FanoutStatus → Bool
same_outcome FanoutStatus.queued FanoutStatus.queued = true
same_outcome FanoutStatus.running FanoutStatus.running = true
same_outcome FanoutStatus.completed FanoutStatus.completed = true
same_outcome FanoutStatus.failed FanoutStatus.failed = true
same_outcome FanoutStatus.partial FanoutStatus.partial = true
same_outcome _ _ = false

all-map :
    (p : JobStatus → Bool) (jobs : List JobRecord)
    → all p (map (λ j. j.status) jobs) ≡ every_job p jobs
all-map p [] = refl
all-map p (job ∷ jobs) = ground (arith, all-map p jobs)

any-map :
    (p : JobStatus → Bool) (jobs : List JobRecord)
    → any p (map (λ j. j.status) jobs) ≡ some_job p jobs
any-map p [] = refl
any-map p (job ∷ jobs) = ground (arith, any-map p jobs)

-- A status is completed, unsuccessful or not terminal.
terminal_cases :
    (status : JobStatus) → is_terminal status ≡ (is_completed status || is_unsuccessful status)
terminal_cases JobStatus.queued = refl
terminal_cases JobStatus.leased = refl
terminal_cases JobStatus.running = refl
terminal_cases JobStatus.completed = refl
terminal_cases JobStatus.failed = refl
terminal_cases JobStatus.retrying = refl
terminal_cases JobStatus.timed_out = refl
terminal_cases JobStatus.cancelled = refl

completed_not_unsuccessful :
    (status : JobStatus) → (is_completed status && is_unsuccessful status) ≡ false
completed_not_unsuccessful JobStatus.queued = refl
completed_not_unsuccessful JobStatus.leased = refl
completed_not_unsuccessful JobStatus.running = refl
completed_not_unsuccessful JobStatus.completed = refl
completed_not_unsuccessful JobStatus.failed = refl
completed_not_unsuccessful JobStatus.retrying = refl
completed_not_unsuccessful JobStatus.timed_out = refl
completed_not_unsuccessful JobStatus.cancelled = refl

active_not_terminal_status : (status : JobStatus) → (is_active status && is_terminal status) ≡ false
active_not_terminal_status JobStatus.queued = refl
active_not_terminal_status JobStatus.leased = refl
active_not_terminal_status JobStatus.running = refl
active_not_terminal_status JobStatus.completed = refl
active_not_terminal_status JobStatus.failed = refl
active_not_terminal_status JobStatus.retrying = refl
active_not_terminal_status JobStatus.timed_out = refl
active_not_terminal_status JobStatus.cancelled = refl

-- The facts about a batch that its status rests on.
every_terminal :
    (jobs : List JobRecord)
    → every_job is_terminal jobs ≡ true
    → (every_job is_completed jobs ≡ not (some_job is_unsuccessful jobs))
every_terminal [] h = refl
every_terminal (job ∷ jobs) h =
    ground
      (arith, terminal_cases job.status, completed_not_unsuccessful job.status, every_terminal jobs)

every_completed :
    (jobs : List JobRecord)
    → every_job is_completed jobs ≡ true
    → (every_job is_terminal jobs ≡ true) × (some_job is_unsuccessful jobs ≡ false)
every_completed [] h = (refl, refl)
every_completed (job ∷ jobs) h = (
  ground (arith, terminal_cases job.status, every_completed jobs),
  ground (arith, completed_not_unsuccessful job.status, every_completed jobs),
)

active_not_terminal :
    (jobs : List JobRecord) → some_job is_active jobs ≡ true → every_job is_terminal jobs ≡ false
active_not_terminal [] h = cc
active_not_terminal (job ∷ jobs) h =
    ground (arith, active_not_terminal_status job.status, active_not_terminal jobs)

every_terminal_nonempty :
    (job : JobRecord) (jobs : List JobRecord)
    → every_job is_terminal (job ∷ jobs) ≡ true
    → (some_job is_completed (job ∷ jobs) || some_job is_unsuccessful (job ∷ jobs)) ≡ true
every_terminal_nonempty job jobs h = ground (arith, terminal_cases job.status)

every_completed_nonempty :
    (job : JobRecord) (jobs : List JobRecord)
    → every_job is_completed (job ∷ jobs) ≡ true
    → some_job is_completed (job ∷ jobs) ≡ true
every_completed_nonempty job jobs h = ground arith

-- When a batch has each status.
pub record HasOutcome (jobs : List JobRecord) (status : FanoutStatus) : Type 0 where
  pub when_completed :
      same_outcome status FanoutStatus.completed
      ≡ (not (is_empty_batch jobs) && every_job is_completed jobs)
  pub when_partial :
      same_outcome status FanoutStatus.partial
      ≡ (some_job is_completed jobs && some_job is_unsuccessful jobs)
  pub when_failed :
      same_outcome status FanoutStatus.failed
      ≡ (not (is_empty_batch jobs) && every_job is_unsuccessful jobs)
  pub when_running : same_outcome status FanoutStatus.running ≡ (
      some_job is_active jobs && not (some_job is_completed jobs && some_job is_unsuccessful jobs))

every_unsuccessful :
    (jobs : List JobRecord)
    → every_job is_unsuccessful jobs
      ≡ (every_job is_terminal jobs && not (some_job is_completed jobs))
every_unsuccessful [] = refl
every_unsuccessful (job ∷ jobs) = ground (
  arith,
  terminal_cases job.status,
  completed_not_unsuccessful job.status,
  every_unsuccessful jobs,
)

-- The tests, in their order, on the facts that they ask for.
abbrev choose :
    (all_completed all_terminal completed_some unsuccessful active : Bool) → FanoutStatus
choose c t p u a =
    if c
    then FanoutStatus.completed
    else if t
    then (if p then FanoutStatus.partial else FanoutStatus.failed)
    else if p && u
    then FanoutStatus.partial
    else if a
    then FanoutStatus.running
    else FanoutStatus.queued

status_of-choose :
    (jobs : List JobRecord)
    → status_of (map (λ j. j.status) jobs)
      ≡ choose
          (every_job is_completed jobs)
          (every_job is_terminal jobs)
          (some_job is_completed jobs)
          (some_job is_unsuccessful jobs)
          (some_job is_active jobs)
unfolding status_of
status_of-choose jobs =
    rw
      (
        all-map is_completed jobs,
        all-map is_terminal jobs,
        any-map is_completed jobs,
        any-map is_unsuccessful jobs,
        any-map is_active jobs,
      )
      refl

choose_lem :
    (c t p u a au : Bool)
    → (c ≡ true → (t ≡ true) × (u ≡ false))
    → (c ≡ true → p ≡ true)
    → (t ≡ true → c ≡ not u)
    → (t ≡ true → (p || u) ≡ true)
    → (a ≡ true → t ≡ false)
    → au ≡ (t && not p)
    → (same_outcome (choose c t p u a) FanoutStatus.completed ≡ c)
      × (same_outcome (choose c t p u a) FanoutStatus.partial ≡ (p && u))
      × (same_outcome (choose c t p u a) FanoutStatus.failed ≡ au)
      × (same_outcome (choose c t p u a) FanoutStatus.running ≡ (a && not (p && u)))
choose_lem c t p u a au h1 h2 h3 h4 h5 h6 = ground arith

-- A batch is completed exactly if it has jobs and all are completed; partial exactly if one job is
-- completed and one failed, timed out or was cancelled; failed exactly if it has jobs and each
-- failed, timed out or was cancelled; running exactly if a job is active and it is not partial.
pub derive_fanout_status-HasOutcome :
    (jobs : List JobRecord) → HasOutcome jobs (derive_fanout_status jobs)
unfolding derive_fanout_status
derive_fanout_status-HasOutcome [] = record {
  when_completed = refl;
  when_partial = refl;
  when_failed = refl;
  when_running = refl;
}
derive_fanout_status-HasOutcome (job ∷ jobs) =
    let batch = job ∷ jobs in
    let (of_completed, of_partial, of_failed, of_running) =
      choose_lem (every_job is_completed batch) (every_job is_terminal batch)
        (some_job is_completed batch) (some_job is_unsuccessful batch) (some_job is_active batch)
        (every_job is_unsuccessful batch) (every_completed batch)
        (every_completed_nonempty job jobs) (every_terminal batch)
        (every_terminal_nonempty job jobs) (active_not_terminal batch) (every_unsuccessful batch) in
    rw (status_of-choose batch) (record {
      when_completed = of_completed;
      when_partial = of_partial;
      when_failed = of_failed;
      when_running = of_running;
    })
