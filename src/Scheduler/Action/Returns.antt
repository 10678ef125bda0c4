-- ===== src/Scheduler/Action/Returns.antt =====
-- An action that returned has returned at each step.
use goblin_king.Base.{subst, ◌≡◌, refl, Result, ok, raise, arith}
use goblin_king.Store.{Store, StoreError}
use goblin_king.Scheduler.Action.Keeps.{Preorder, Keeps}
use goblin_king.Scheduler.Action.{
  World, Action, SchedulerError, ◌>>=◌, ◌>>◌, done, returned, query, transact, follow, committed,
}

-- The action ends in this world with this value.
abbrev pub Returns : {A : Type 0} → Action A → World → World → A → Type 0
Returns m world world' a = m.run world ≡ (world', ok a)

follow-returned :
    {A B : Type 0} (f : A → Action B) (left : World × Result SchedulerError A) (world' : World)
    (b : B)
    → follow f left ≡ (world', ok b)
    → (mid : World) × (a : A) × (left ≡ (mid, ok a)) × Returns (f a) mid world' b
follow-returned f (mid, ok a) world' b h = (mid, a, refl, h)
follow-returned f (mid, raise e) world' b h = ground arith

pub bind-Returns :
    {A B : Type 0} (m : Action A) (f : A → Action B) (world world' : World) (b : B)
    → Returns (m >>= f) world world' b
    → (mid : World) × (a : A) × Returns m world mid a × Returns (f a) mid world' b
unfolding ◌>>=◌
bind-Returns m f world world' b h = follow-returned f (m.run world) world' b h

pub then-Returns :
    {A B : Type 0} (m : Action A) (k : Action B) (world world' : World) (b : B)
    → Returns (m >> k) world world' b
    → (mid : World) × (a : A) × Returns m world mid a × Returns k mid world' b
unfolding ◌>>◌
then-Returns m k world world' b h = bind-Returns m (λ _. k) world world' b h

committed-returned :
    {A : Type 0} (world world' : World) (r : Result StoreError (Store × A)) (a : A)
    → committed world r ≡ (world', ok a)
    → r ≡ ok (world'.store, a)
committed-returned world world' (ok (store, b)) a h = ground arith
committed-returned world world' (raise e) a h = ground arith

pub transact-Returns :
    {A : Type 0} (f : Store → Result StoreError (Store × A)) (world world' : World) (a : A)
    → Returns (transact f) world world' a
    → f world.store ≡ ok (world'.store, a)
unfolding transact
transact-Returns f world world' a h = committed-returned world world' (f world.store) a h

pub done-Returns :
    {A : Type 0} (a : A) (world world' : World) (b : A)
    → Returns (done a) world world' b
    → (a ≡ b) × (world ≡ world')
unfolding done
done-Returns a world world' b h = ground arith

pub query-Returns :
    {A : Type 0} (f : Store → A) (world world' : World) (b : A)
    → Returns (query f) world world' b
    → (f world.store ≡ b) × (world ≡ world')
unfolding query
query-Returns f world world' b h = ground arith

pub returned-Returns :
    {E A : Type 0} (wrap : E → SchedulerError) (r : Result E A) (world world' : World) (a : A)
    → Returns (returned wrap r) world world' a
    → (r ≡ ok a) × (world ≡ world')
unfolding returned
returned-Returns wrap (ok b) world world' a h = ground arith
returned-Returns wrap (raise e) world world' a h = ground arith

pub Keeps-Returns :
    {order : Preorder} {A : Type 0} {m : Action A} {world world' : World} {a : A}
    → Keeps order m
    → Returns m world world' a
    → order.R world.store world'.store
Keeps-Returns {order = order} {world = world} kept h =
    subst (λ left. order.R world.store left.0.store) h (kept.along world)

along-follow :
    {A B : Type 0} (order : Preorder) (f : A → Action B) (world : World)
    (left : World × Result SchedulerError A)
    → order.R world.store left.0.store
    → ((mid : World) (a : A) → left ≡ (mid, ok a) → order.R mid.store ((f a).run mid).0.store)
    → order.R world.store (follow f left).0.store
along-follow order f world (mid, ok a) first rest =
    order.transitive world.store mid.store ((f a).run mid).0.store first (rest mid a refl)
along-follow order f world (mid, raise e) first rest = first

-- A chain along a preorder whose later steps depend on how the earlier ones returned.
pub along-bind :
    {A B : Type 0} (order : Preorder) (m : Action A) (f : A → Action B) (world : World)
    → order.R world.store (m.run world).0.store
    → ((mid : World) (a : A) → Returns m world mid a → order.R mid.store ((f a).run mid).0.store)
    → order.R world.store ((m >>= f).run world).0.store
unfolding ◌>>=◌
along-bind order m f world first rest = along-follow order f world (m.run world) first rest
