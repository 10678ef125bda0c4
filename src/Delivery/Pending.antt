-- ===== src/Delivery/Pending.antt =====
-- The pending events of a causal table, and what is left of them behind a batch.
use goblin_king.Base.{
  ℕ, zero, suc, ◌<◌, ◌≤◌, ◌≡◌, refl, Bool, ◌&&◌, List, [], ◌∷◌, take, drop, arith, ltb, leb, All,
  All-map, Bool-cases, inl, inr,
}
use goblin_king.Contracts.{EventRecord}
use goblin_king.Table.{select_where, order_by, place}
use goblin_king.Table.Keyed.{All-select_where}
use goblin_king.Store.Events.{event_key}
use goblin_king.Store.Events.Causal.{IsCausal, Precedes}
use goblin_king.Delivery.{pending}

-- The cursor after the rows.
unfoldable pub last_sequence : ℕ → List EventRecord → ℕ
last_sequence cursor [] = cursor
last_sequence cursor (row ∷ rows) = last_sequence row.sequence rows

pub place-first :
    (x : EventRecord) (t : List EventRecord)
    → All (Precedes x) t
    → place (λ a b. leb a.sequence b.sequence) x t ≡ x ∷ t
unfolding place
place-first x [] h = refl
place-first x (y ∷ t) h = let less = h.0.0 in ground arith

-- ORDER BY keeps a causal table as it is.
pub order_by-causal :
    (t : List EventRecord) → IsCausal t → order_by (λ a b. leb a.sequence b.sequence) t ≡ t
unfolding order_by
order_by-causal [] h = refl
order_by-causal (x ∷ t) h = rw (order_by-causal t h.1) (place-first x t h.0)

pub select_where-IsCausal :
    (p : EventRecord → Bool) (t : List EventRecord) → IsCausal t → IsCausal (select_where p t)
unfolding select_where
select_where-IsCausal p [] h = tt
select_where-IsCausal p (x ∷ t) h = elim (Bool-cases (p x)) [
  | inl e ↦ rw e (All-select_where event_key (Precedes x) p t h.0, select_where-IsCausal p t h.1)
  | inr e ↦ rw e (select_where-IsCausal p t h.1)
]

-- Behind a later cursor, fewer events are pending.
pub pending-pending :
    (c d target : ℕ) (events : List EventRecord)
    → c ≤ d
    → pending d target events
      ≡ select_where (λ event. ltb d event.sequence) (pending c target events)
unfolding select_where
pending-pending c d target [] h = refl
pending-pending c d target (x ∷ events) h = ground (arith, pending-pending c d target events h)

pub select_where-above :
    (c : ℕ) (t : List EventRecord)
    → All (λ event. c < event.sequence) t
    → select_where (λ event. ltb c event.sequence) t ≡ t
unfolding select_where
select_where-above c [] a = refl
select_where-above c (x ∷ t) a = let less = a.0 in ground (arith, select_where-above c t a.1)

pub pending-none :
    (c target : ℕ) (events : List EventRecord) → target ≤ c → pending c target events ≡ []
unfolding select_where
pending-none c target [] h = refl
pending-none c target (x ∷ events) h = ground (arith, pending-none c target events h)

-- The bounds of the pending events.
pub pending-bounds :
    (c target : ℕ) (events : List EventRecord)
    → All (λ event. (c < event.sequence) × (event.sequence ≤ target)) (pending c target events)
unfolding select_where
pending-bounds c target [] = tt
pending-bounds c target (x ∷ events) =
    elim (Bool-cases (ltb c x.sequence && leb x.sequence target)) [
      | inl e ↦ rw e ((ground arith, ground arith), pending-bounds c target events)
      | inr e ↦ rw e (pending-bounds c target events)
    ]

-- In a causal list, the rows behind the first n are those after the last of the n.
pub select_where-after :
    (n : ℕ) (c : ℕ) (t : List EventRecord)
    → IsCausal t
    → All (λ event. c < event.sequence) t
    → (c ≤ last_sequence c (take n t))
      × (select_where (λ event. ltb (last_sequence c (take n t)) event.sequence) t ≡ drop n t)
unfolding select_where last_sequence
select_where-after zero c t h a = (omega arith, select_where-above c t a)
select_where-after (suc n) c [] h a = (omega arith, refl)
select_where-after (suc n) c (x ∷ t) h a =
    let (le, e) = select_where-after n x.sequence t h.1 (All-map _ _ (λ y p. p.0) t h.0) in
    let first = a.0 in ground arith
