-- ===== src/Scheduler/Action/Keeps.antt =====
-- Actions that move the store along a preorder, whether they return or raise.
use goblin_king.Base.{
  Option, none, some, if◌then◌else◌, List, ℕ, Bool, true, false, Result, ok, raise, ◌≡◌, refl,
}
use goblin_king.Contracts.{AuditLogRecord, HeartbeatRecord}
use goblin_king.Store.{Store, StoreError}
use goblin_king.Scheduler.Action.{
  World, Action, SchedulerError, ◌>>=◌, ◌>>◌, done, fail, returned, query, transact, change, draw,
  attempt, when, follow, committed, caught, on_option, write_heartbeats, write_audit_logs,
}

-- What a pass may do to the store.
pub record Preorder : Type 1 where
  pub R : Store → Store → Type 0
  pub reflexive : (store : Store) → R store store
  pub transitive : (a b c : Store) → R a b → R b c → R a c

pub record Keeps (order : Preorder) {A : Type 0} (m : Action A) : Type 0 where
  pub along : (world : World) → order.R world.store (m.run world).0.store

caught_store : {A : Type 0} (r : World × Result SchedulerError A) → (caught r).0.store ≡ r.0.store
caught_store (world, r) = refl

committed_along :
    (order : Preorder) {A : Type 0} (world : World) (r : Result StoreError (Store × A))
    → ((store' : Store) (a : A) → r ≡ ok (store', a) → order.R world.store store')
    → order.R world.store (committed world r).0.store
committed_along order world (ok (store', a)) h = h store' a refl
committed_along order world (raise e) h = order.reflexive world.store

module _ {order : Preorder} where
  pub Keeps-done : {A : Type 0} (a : A) → Keeps order (done a)
  unfolding done
  Keeps-done a = record { along = λ world. order.reflexive world.store }

  pub Keeps-fail : {A : Type 0} (e : SchedulerError) → Keeps order (fail {A = A} e)
  unfolding fail
  Keeps-fail e = record { along = λ world. order.reflexive world.store }

  pub Keeps-returned :
      {E A : Type 0} (wrap : E → SchedulerError) (r : Result E A) → Keeps order (returned wrap r)
  unfolding returned
  Keeps-returned wrap (ok a) = record { along = λ world. order.reflexive world.store }
  Keeps-returned wrap (raise e) = record { along = λ world. order.reflexive world.store }

  pub Keeps-query : {A : Type 0} (f : Store → A) → Keeps order (query f)
  unfolding query
  Keeps-query f = record { along = λ world. order.reflexive world.store }

  pub Keeps-draw : {A : Type 0} (supply : ℕ → A) → Keeps order (draw supply)
  unfolding draw
  Keeps-draw supply = record { along = λ world. order.reflexive world.store }

  follow_along :
      {A B : Type 0} (f : A → Action B) (store : Store) (left : World × Result SchedulerError A)
      → order.R store left.0.store
      → ((a : A) → Keeps order (f a))
      → order.R store (follow f left).0.store
  follow_along f store (world, ok a) first rest =
      order.transitive store world.store ((f a).run world).0.store first ((rest a).along world)
  follow_along f store (world, raise e) first rest = first

  pub Keeps-bind :
      {A B : Type 0} {m : Action A} {f : A → Action B}
      → Keeps order m
      → ((a : A) → Keeps order (f a))
      → Keeps order (m >>= f)
  unfolding ◌>>=◌
  Keeps-bind {m = m} {f = f} first rest = record {
    along = λ world. follow_along f world.store (m.run world) (first.along world) rest;
  }

  pub Keeps-then :
      {A B : Type 0} {m : Action A} {k : Action B}
      → Keeps order m
      → Keeps order k
      → Keeps order (m >> k)
  unfolding ◌>>◌
  Keeps-then first rest = Keeps-bind first (λ _. rest)

  pub Keeps-when :
      {A : Type 0} (test : Bool) {m : Action A} → Keeps order m → Keeps order (when test m)
  unfolding when
  Keeps-when true kept = Keeps-then kept (Keeps-done tt)
  Keeps-when false kept = Keeps-done tt

  pub Keeps-attempt : {A : Type 0} {m : Action A} → Keeps order m → Keeps order (attempt m)
  unfolding attempt
  Keeps-attempt {m = m} kept = record {
    along = λ world. rw (caught_store (m.run world)) (kept.along world);
  }

  pub Keeps-transact :
      {A : Type 0} (f : Store → Result StoreError (Store × A))
      → ((store store' : Store) (a : A) → f store ≡ ok (store', a) → order.R store store')
      → Keeps order (transact f)
  unfolding transact
  Keeps-transact f h = record {
    along = λ world. committed_along order world (f world.store) (h world.store);
  }

  pub Keeps-change :
      {A : Type 0} (f : Store → Store × A)
      → ((store : Store) → order.R store (f store).0)
      → Keeps order (change f)
  unfolding change
  Keeps-change f h = record { along = λ world. h world.store }

  pub Keeps-write_audit_logs :
      (f : List AuditLogRecord → List AuditLogRecord) → Keeps order (write_audit_logs f)
  unfolding write_audit_logs
  Keeps-write_audit_logs f = record { along = λ world. order.reflexive world.store }

  pub Keeps-if :
      {A : Type 0} (test : Bool) {m k : Action A}
      → Keeps order m
      → Keeps order k
      → Keeps order (if test then m else k)
  Keeps-if true first second = first
  Keeps-if false first second = second

  pub Keeps-on_option :
      {A B : Type 0} (value : Option A) {m : Action B} {f : A → Action B}
      → Keeps order m
      → ((a : A) → Keeps order (f a))
      → Keeps order (on_option value m f)
  Keeps-on_option none first rest = first
  Keeps-on_option (some a) first rest = rest a

  -- A finer preorder will do.
  pub Keeps-weaken :
      {finer : Preorder} {A : Type 0} {m : Action A}
      → ((store store' : Store) → finer.R store store' → order.R store store')
      → Keeps finer m
      → Keeps order m
  Keeps-weaken {m = m} weaker kept = record {
    along = λ world. weaker world.store (m.run world).0.store (kept.along world);
  }

  pub Keeps-write_heartbeats :
      (f : List HeartbeatRecord → List HeartbeatRecord) → Keeps order (write_heartbeats f)
  unfolding write_heartbeats
  Keeps-write_heartbeats f = record { along = λ world. order.reflexive world.store }
