-- ===== src/Scheduler/Action.antt =====
-- A scheduler's code as actions: each works on the store, may raise, and keeps what was committed
-- before it raised. Ids and times are drawn from the process's supplies in the order of the calls.
pub mod Keeps
pub mod Returns
use goblin_king.Base.{
  ℕ, suc, String, List, Option, none, some, Bool, true, false, Result, ok, raise,
}
use goblin_king.Contracts.{JobStatus, HeartbeatRecord, AuditLogRecord}
use goblin_king.Policies.{PolicyError}
use goblin_king.Registry.{RegistryError}
use goblin_king.Store.{Store, StoreError}

pub record World : Type 0 where
  pub store : Store
  pub heartbeats : List HeartbeatRecord
  pub audit_logs : List AuditLogRecord
  -- the number of draws so far
  pub draws : ℕ

pub data SchedulerError : Type 0 where
  store_error : StoreError → SchedulerError
  policy_error : PolicyError → SchedulerError
  registry_error : RegistryError → SchedulerError
  -- JobAttemptSuperseded
  superseded : (job_id : String) → SchedulerError
  -- the RuntimeError of record_unexpected_job_failure
  disappeared : (job_id : String) → SchedulerError
  -- the KeyError of an unknown job or fanout, and the ValueError of a job that is not terminal
  key_error : (key : String) → SchedulerError
  not_terminal : (status : JobStatus) → SchedulerError
  -- an AttributeError, or an exception of code that the model does not hold
  other_error : (error : String) → SchedulerError

-- Code of the scheduler: from a world to the next one, and a value or an exception.
pub record Action (A : Type 0) : Type 0 where
  pub run : World → World × Result SchedulerError A

abbrev pub follow :
    {A B : Type 0}
    → (A → Action B)
    → World × Result SchedulerError A
    → World × Result SchedulerError B
follow f (world, ok a) = (f a).run world
follow f (world, raise e) = (world, raise e)

infixl 5 ◌>>=◌ ◌>>◌
unfoldable pub ◌>>=◌ : {A B : Type 0} → Action A → (A → Action B) → Action B
m >>= f = record { run = λ world. follow f (m.run world) }

unfoldable pub ◌>>◌ : {A B : Type 0} → Action A → Action B → Action B
unfolding ◌>>=◌
m >> k = m >>= λ _. k

unfoldable pub done : {A : Type 0} → A → Action A
done a = record { run = λ world. (world, ok a) }

unfoldable pub fail : {A : Type 0} → SchedulerError → Action A
fail e = record { run = λ world. (world, raise e) }

-- A result of pure code that may raise.
unfoldable pub returned : {E A : Type 0} → (E → SchedulerError) → Result E A → Action A
returned wrap (ok a) = record { run = λ world. (world, ok a) }
returned wrap (raise e) = record { run = λ world. (world, raise (wrap e)) }

-- A query of the store.
unfoldable pub query : {A : Type 0} → (Store → A) → Action A
query f = record { run = λ world. (world, ok (f world.store)) }

abbrev pub committed :
    {A : Type 0} → World → Result StoreError (Store × A) → World × Result SchedulerError A
committed world (ok (store, a)) = (record world { store = store }, ok a)
committed world (raise e) = (world, raise (store_error e))

-- A transaction of the store that may raise: it is rolled back as a whole.
unfoldable pub transact : {A : Type 0} → (Store → Result StoreError (Store × A)) → Action A
transact f = record { run = λ world. committed world (f world.store) }

-- A method that returns nothing.
abbrev pub only_store : Result StoreError Store → Result StoreError (Store × Unit {0})
only_store (ok store) = ok (store, tt)
only_store (raise e) = raise e

-- A transaction that cannot raise.
unfoldable pub change : {A : Type 0} → (Store → Store × A) → Action A
change f = record {
  run = λ world. let (store, a) = f world.store in (record world { store = store }, ok a);
}

-- The next value of a supply: `uuid4()`, `utc_now()`, `time.monotonic()`.
unfoldable pub draw : {A : Type 0} → (ℕ → A) → Action A
draw supply = record {
  run = λ world. (record world { draws = suc world.draws }, ok (supply world.draws));
}

-- A write to the tables beside the store's.
unfoldable pub write_heartbeats : (List HeartbeatRecord → List HeartbeatRecord) → Action (Unit {0})
write_heartbeats f = record {
  run = λ world. (record world { heartbeats = f world.heartbeats }, ok tt);
}

unfoldable pub write_audit_logs : (List AuditLogRecord → List AuditLogRecord) → Action (Unit {0})
write_audit_logs f = record {
  run = λ world. (record world { audit_logs = f world.audit_logs }, ok tt);
}

abbrev pub caught :
    {A : Type 0}
    → World × Result SchedulerError A
    → World × Result SchedulerError (Result SchedulerError A)
caught (world, r) = (world, ok r)

-- `try: m` with the exception as a value.
unfoldable pub attempt : {A : Type 0} → Action A → Action (Result SchedulerError A)
attempt m = record { run = λ world. caught (m.run world) }

-- `if test: m`
unfoldable pub when : {A : Type 0} → Bool → Action A → Action (Unit {0})
when true m = m >> done tt
when false m = done tt

-- `m if value is None else f(value)`
abbrev pub on_option : {A B : Type 0} → Option A → (m : Action B) → (f : A → Action B) → Action B
on_option none m f = m
on_option (some a) m f = f a
