-- ===== src/Store/Runs/Ownership.antt =====
-- Who may move a job when an attempt is finished (`finalize_attempt` of store_run_lifecycle.py).
use goblin_king.Base.{
  String, eq_iff, eq_refl, ◌+◌, ◌≡◌, ap, ◌↔◌, ◌⊎◌, ◌&&◌, true, Option, none, some, eqb, is_text,
  arith, Bool-cases, inl, inr,
}
use goblin_king.Contracts.{JobRecord, JobStatus, RunRecord, is_running, is_leased}
use goblin_king.Store.Runs.{owns_attempt}

-- The attempt holds the job: its worker has the lease, and the job is running at the attempt, or is
-- leased for it.
abbrev pub Holds : RunRecord → String → JobRecord → Type 0
Holds run owner job =
    (job.lease_owner ≡ some owner)
    × (((job.status ≡ JobStatus.running) × (job.attempt_count ≡ run.attempt))
        ⊎ ((job.status ≡ JobStatus.leased) × (job.attempt_count + 1 ≡ run.attempt)))

is_text-eq : (o : Option String) (t : String) → is_text o t ≡ true → o ≡ some t
is_text-eq none t h = absurd (ground arith)
is_text-eq (some s) t h = ap some ((eq_iff s t).0 h)

is_running-eq : (s : JobStatus) → is_running s ≡ true → s ≡ JobStatus.running
is_running-eq s h = ground arith

is_leased-eq : (s : JobStatus) → is_leased s ≡ true → s ≡ JobStatus.leased
is_leased-eq s h = ground arith

pub owns_attempt-Holds :
    (run : RunRecord) (owner : String) (job : JobRecord)
    → (owns_attempt run owner job ≡ true) ↔ Holds run owner job
unfolding owns_attempt
owns_attempt-Holds run owner job = (
  (λ h. (
    is_text-eq job.lease_owner owner (ground arith),
    elim (Bool-cases (is_running job.status && eqb job.attempt_count run.attempt)) [
      | inl e ↦ inl (is_running-eq job.status (ground arith), ground arith)
      | inr e ↦ inr (is_leased-eq job.status (ground arith), ground arith)
    ],
  )),
  (λ h. elim h.1 [
    | inl (status, attempt) ↦
        let owned = h.0 in rw (owned, status, attempt) (ground (arith, eq_refl owner))
    | inr (status, attempt) ↦ let owned = h.0 in rw (owned, status) (ground (arith, eq_refl owner))
  ]),
)
