-- ===== src/Scheduler/Terminal.antt =====
-- Steps of a pass that leave terminal jobs alone: the preorder, and what the scheduler's two
-- unguarded updates (finish_job, in deferrals and in the record of a failure) do under it.
use mathlib.Core.Option
pub mod Failed
pub mod Passed
pub mod Claimed
use goblin_king.Base.{
  ℕ, String, ◌==◌, eq_iff, ◌≡◌, refl, ◌∙◌, sym, ap, subst, Bool, true, false, ◌&&◌, Option, none,
  some, Result, ok, raise, arith, Option-cases, inl, inr, if◌then◌else◌, Bool-cases,
}
use goblin_king.Contracts.{JobRecord, JobStatus, RunRecord, Message, is_terminal}
use goblin_king.Table.{get_row}
use goblin_king.Table.Laws.{get_row-key}
use goblin_king.Store.{Store}
use goblin_king.Store.Jobs.{job_key, finish_job, settle_job}
use goblin_king.Store.Jobs.Lookup.{job_row, HasJobIds, job_row-update_job, update_job-HasJobIds}
use goblin_king.Store.Protocol.{JobReach-terminal}
use goblin_king.Scheduler.Action.Keeps.{Preorder, Keeps, Keeps-weaken}
use goblin_king.Scheduler.SameJobs.{same_jobs}
use goblin_king.Scheduler.Refine.{Moves, moves}
use goblin_king.Scheduler.Action.{Action}

-- Every terminal job is as it was.
abbrev pub KeepsTerminal : Store → Store → Type 0
KeepsTerminal store store' =
    (job_id : String) (job : JobRecord)
    → job_row job_id store ≡ some job
    → is_terminal job.status ≡ true
    → job_row job_id store' ≡ some job

unfoldable pub terminal_kept : Preorder
terminal_kept = record {
  R = KeepsTerminal;
  reflexive = λ store job_id job found ended. found;
  transitive = λ a b c first second job_id job found ended.
      second job_id job (first job_id job found ended) ended;
}

pub Moves-terminal : (store store' : Store) → Moves store store' → KeepsTerminal store store'
Moves-terminal store store' move job_id job found ended =
    let (later, at, reach) = move job_id job found in
    let same = JobReach-terminal reach ended in at ∙ ap some same

pub moves-terminal : {A : Type 0} {m : Action A} → Keeps moves m → Keeps terminal_kept m
unfolding moves terminal_kept
moves-terminal kept = Keeps-weaken Moves-terminal kept

-- The job under an id is there and not terminal.
abbrev pub IsOpen : Store → String → Type 0
IsOpen store job_id =
    (row : JobRecord) × (job_row job_id store ≡ some row) × (is_terminal row.status ≡ false)

module _ (job_id : String) (status : JobStatus) (error : Option Message) (due_at : Option ℕ)
    (store : Store) where
  abbrev finished : Store
  finished = finish_job job_id status error due_at store

  job_row-finish_job :
      (k : String)
      → job_row k finished
        ≡ Option.map
            (λ job. if job.id == job_id && true then settle_job status error due_at job else job)
            (job_row k store)
  unfolding finish_job settle_job
  job_row-finish_job k =
      job_row-update_job job_id (λ _. true) (settle_job status error due_at) store (λ job. refl) k

  pub finish_job-HasJobIds : HasJobIds store → HasJobIds finished
  unfolding finish_job settle_job
  finish_job-HasJobIds u =
      update_job-HasJobIds job_id (λ _. true) (settle_job status error due_at) store (λ job. refl) u

  -- A finished job that was open leaves the terminal ones alone.
  pub finish_job-terminal : IsOpen store job_id → KeepsTerminal store finished
  finish_job-terminal (row, at, is_open) k job found ended =
      let seen = job_row-finish_job k in
      let key = get_row-key job_key k store.jobs job found in
      elim (Bool-cases (job.id == job_id)) [
        | inl e ↦
            let same_id : k ≡ job_id = ground (arith, eq_iff job.id job_id) in
            let here : job_row job_id store ≡ some job =
              ap (λ i. job_row i store) (sym same_id) ∙ found in
            let same : some row ≡ some job = sym at ∙ here in ground arith
        | inr e ↦ ground arith
      ]

  pub finish_job-IsOpen :
      (other : String) → is_terminal status ≡ false → IsOpen store other → IsOpen finished other
  unfolding settle_job
  finish_job-IsOpen other open_status (row, at, is_open) =
      let seen = job_row-finish_job other in
      elim (Bool-cases (row.id == job_id)) [
        | inl e ↦ (settle_job status error due_at row, ground arith, open_status)
        | inr e ↦ (row, ground arith, is_open)
      ]
