-- ===== src/Store/Protocol.antt =====
-- The life of one job as a protocol: the moves that the store's guarded transactions make on a
-- single row, whichever scheduler or caller issues them.
pub mod Refine
pub mod History
pub mod Finished
use goblin_king.Base.{
  ℕ, String, ◌≡◌, refl, ◌⊎◌, inl, inr, Bool, true, false, not, Option, none, some, arith, is_some,
}
use goblin_king.Contracts.{
  JobRecord, JobStatus, Message, RunRecord, is_terminal, is_held, is_waiting,
}
use goblin_king.Store.Jobs.{
  is_claimable, lease_job, may_renew, renew_job, may_start, start_job, settle_job, stop_job,
}
use goblin_king.Store.Runs.{owns_attempt}

pub data JobStep (job : JobRecord) : JobRecord → Type 0 where
  claim :
      (worker_id : String) (now lease_until : ℕ)
      → is_claimable now job ≡ true
      → JobStep job (lease_job worker_id lease_until job)
  renew :
      (owner : String) (lease_until : ℕ)
      → may_renew owner job ≡ true
      → JobStep job (renew_job lease_until job)
  start :
      (owner : String) (attempt_count : ℕ)
      → may_start owner job ≡ true
      → JobStep job (start_job attempt_count job)
  settle :
      (run : RunRecord) (owner : String) (status : JobStatus) (error : Option Message)
      (due_at : Option ℕ)
      → is_held status ≡ false
      → owns_attempt run owner job ≡ true
      → JobStep job (settle_job status error due_at job)
  cancel : not (is_terminal job.status) ≡ true → JobStep job (stop_job job)

pub data JobReach (job : JobRecord) : JobRecord → Type 0 where
  here : JobReach job job
  next : {mid last : JobRecord} → JobReach job mid → JobStep mid last → JobReach job last

pub JobReach-trans : {a b c : JobRecord} → JobReach a b → JobReach b c → JobReach a c
JobReach-trans r here = r
JobReach-trans r (next s st) = next (JobReach-trans r s) st

-- A job that is completed, failed, timed out or cancelled makes no further move.
pub JobStep-terminal : {a b : JobRecord} → JobStep a b → is_terminal a.status ≡ false
unfolding is_claimable may_renew may_start owns_attempt
JobStep-terminal (claim w n u h) = ground arith
JobStep-terminal (renew o u h) = ground arith
JobStep-terminal (start o n h) = ground arith
JobStep-terminal (settle r o s e d f h) = ground arith
JobStep-terminal (cancel h) = ground arith

-- A held job has an owner and a lease time, and no other job has either.
pub record IsConsistent (job : JobRecord) : Type 0 where
  pub owned : is_some job.lease_owner ≡ is_held job.status
  pub timed : is_some job.leased_until ≡ is_held job.status

pub JobStep-IsConsistent : {a b : JobRecord} → JobStep a b → IsConsistent a → IsConsistent b
unfolding lease_job may_renew renew_job may_start start_job settle_job stop_job
JobStep-IsConsistent (claim w n u h) c = ground arith
JobStep-IsConsistent (renew o u h) c = ground arith
JobStep-IsConsistent (start o n h) c = ground arith
JobStep-IsConsistent (settle r o s e d f h) c = ground arith
JobStep-IsConsistent (cancel h) c = ground arith

-- What a move leaves as it was submitted.
pub record IsSameJob (a b : JobRecord) : Type 0 where
  pub id : b.id ≡ a.id
  pub kind : b.kind ≡ a.kind
  pub input : b.input ≡ a.input
  pub created_at : b.created_at ≡ a.created_at
  pub project_id : b.project_id ≡ a.project_id
  pub priority : b.priority ≡ a.priority
  pub max_retries : b.max_retries ≡ a.max_retries
  pub metadata : b.metadata ≡ a.metadata

pub JobStep-IsSameJob : {a b : JobRecord} → JobStep a b → IsSameJob a b
unfolding lease_job renew_job start_job settle_job stop_job
JobStep-IsSameJob (claim w n u h) = ground arith
JobStep-IsSameJob (renew o u h) = ground arith
JobStep-IsSameJob (start o n h) = ground arith
JobStep-IsSameJob (settle r o s e d f h) = ground arith
JobStep-IsSameJob (cancel h) = ground arith

pub JobReach-IsConsistent : {a b : JobRecord} → JobReach a b → IsConsistent a → IsConsistent b
JobReach-IsConsistent here c = c
JobReach-IsConsistent (next r st) c = JobStep-IsConsistent st (JobReach-IsConsistent r c)

pub JobReach-IsSameJob : {a b : JobRecord} → JobReach a b → IsSameJob a b
JobReach-IsSameJob here = ground arith
JobReach-IsSameJob (next r st) =
    let ih = JobReach-IsSameJob r in let s = JobStep-IsSameJob st in ground arith

pub JobReach-terminal : {a b : JobRecord} → JobReach a b → is_terminal a.status ≡ true → b ≡ a
JobReach-terminal here h = refl
JobReach-terminal (next r st) h =
    let same = JobReach-terminal r h in let open_job = JobStep-terminal st in cc
