-- ===== src/Store/Events/Causal.antt =====
-- Events are numbered and timed in the order in which they are stored.
use goblin_king.Base.{
  ◌+◌, ◌≤◌, ◌<◌, ◌≡◌, refl, inl, inr, true, none, some, List, [], ◌∷◌, ◌++◌, arith, All, All-map,
  subst, All-both, All-append, Option-cases, leb→le, ok,
}
use goblin_king.Contracts.{EventRecord}
use goblin_king.CausalTime.{utc, ensure_utc, normalized}
use goblin_king.CausalTime.Order.{causally_after_lem}
use goblin_king.Table.{order_by, insert_row}
use goblin_king.Table.Laws.{IsKeyed, insert_row-eq_some, insert_row-IsKeyed}
use goblin_king.Table.Sorted.{IsSorted, order_by-IsSorted, All-order_by, order_by-All}
use goblin_king.Store.State.{Store}
use goblin_king.Store.Events.{event_key, newer, first, newest_event, sequenced, persist_event}

-- One event precedes another: by its number and by its time.
abbrev pub Precedes : EventRecord → EventRecord → Type 0
Precedes a b = (a.sequence < b.sequence) × (a.created_at < b.created_at)

abbrev pub IsCausal : List EventRecord → Type 0
IsCausal [] = Unit
IsCausal (x ∷ t) = All (Precedes x) t × IsCausal t

-- The invariant of the table: the stored events precede one another in the order in which they
-- were stored, no number is beyond the counter, and no two events share an id.
pub record IsOrdered (store : Store) : Type 0 where
  pub causal : IsCausal store.events
  pub counted : All (λ event. event.sequence ≤ store.event_sequence) store.events
  pub ids : IsKeyed event_key store.events

-- Of two events in a causal table, the one with the greater number is not the earlier one.
abbrev Agree : EventRecord → EventRecord → Type 0
Agree x y = y.sequence ≤ x.sequence → y.created_at ≤ x.created_at

IsCausal-Agree : (t : List EventRecord) → IsCausal t → All (λ x. All (Agree x) t) t
IsCausal-Agree [] h = tt
IsCausal-Agree (x ∷ t) h = (
  ((λ _. omega arith), All-map (Precedes x) (Agree x) (λ y p q. absurd (omega arith)) t h.0),
  All-both _ _ _ (λ y (p : Precedes x y) (all : All (Agree y) t). ((λ _. omega arith), all)) t h.0
      (IsCausal-Agree t h.1),
)

first-sorted :
    (P : EventRecord → Type 0) (s : List EventRecord) (newest : EventRecord)
    → first s ≡ some newest
    → IsSorted newer s
    → All P s
    → P newest × All (λ y. newer newest y ≡ true) s
first-sorted P [] newest e sorted h = cc
first-sorted P (x ∷ t) newest e sorted h =
    let same : x ≡ newest = cc in
    subst (λ z. P z × All (λ y. newer z y ≡ true) (x ∷ t)) same (h.0, (ground arith, sorted.0))

-- The newest event is at or after every event of a causal table.
newest_event-latest :
    (events : List EventRecord) (newest : EventRecord)
    → IsCausal events
    → newest_event events ≡ some newest
    → All (λ event. event.created_at ≤ newest.created_at) events
unfolding newest_event
newest_event-latest events newest causal e =
    let sorted =
      order_by-IsSorted newer (λ a b h. ground arith) (λ a b c h k. ground arith) events in
    let (agrees, later) =
      first-sorted (λ x. All (Agree x) events) (order_by newer events) newest e sorted
        (All-order_by newer _ events (IsCausal-Agree events causal)) in
    All-both (Agree newest) (λ y. newer newest y ≡ true) (λ y. y.created_at ≤ newest.created_at)
      (λ y agree h. agree (leb→le y.sequence newest.sequence h)) events agrees
      (order_by-All newer _ events later)

newest_event-none : (events : List EventRecord) → newest_event events ≡ none → events ≡ []
unfolding newest_event
newest_event-none events e = empty (order_by newer events) e (order_by-All newer (λ _. ⊥) events)
  where
    empty :
        (s : List EventRecord)
        → first s ≡ none
        → (All (λ _. ⊥) s → All (λ _. ⊥) events)
        → events ≡ []
    empty [] e back = nothing events (back tt)
      where
        nothing : (t : List EventRecord) → All (λ _. ⊥) t → t ≡ []
        nothing [] h = refl
        nothing (x ∷ t) h = absurd h.0
    empty (x ∷ t) e back = cc

-- The stored event follows every event of the table.
sequenced-follows :
    (store : Store) (event : EventRecord)
    → IsOrdered store
    → All (λ old. Precedes old (sequenced store event)) store.events
unfolding sequenced
sequenced-follows store event ordered = elim (Option-cases (newest_event store.events)) [
  | inl e ↦ rw (newest_event-none store.events e) tt
  | inr (newest, e) ↦
      let stored = sequenced store event in
      let after : newest.created_at < stored.created_at = rw e (
        unfold normalized ensure_utc in
        (causally_after_lem (some (utc newest.created_at) ∷ []) (utc event.created_at)).1.0) in
      All-both _ _ _
        (λ old (counted : old.sequence ≤ store.event_sequence)
            (early : old.created_at ≤ newest.created_at).
          (omega arith, omega arith))
        store.events ordered.counted (newest_event-latest store.events newest ordered.causal e)
]

IsCausal-snoc :
    (t : List EventRecord) (x : EventRecord)
    → IsCausal t
    → All (λ old. Precedes old x) t
    → IsCausal (t ++ x ∷ [])
IsCausal-snoc [] x h p = (tt, tt)
IsCausal-snoc (y ∷ t) x h p =
    (All-append (Precedes y) t (x ∷ []) h.0 (p.0, tt), IsCausal-snoc t x h.1 p.1)

stored_store :
    (event : EventRecord) (store store' : Store) (stored : EventRecord) (events : List EventRecord)
    → insert_row event_key (sequenced store event) store.events ≡ some events
    → persist_event event store ≡ ok (store', stored)
    → record store { events = events; event_sequence = store.event_sequence + 1 } ≡ store'
unfolding persist_event
stored_store event store store' stored events e h = ground arith

-- Storing an event keeps the invariant, and the stored event comes after all the events that were
-- there, by its number and strictly by its time; its time is not before the one it asked for.
pub persist_event-IsOrdered :
    (event : EventRecord) (store store' : Store) (stored : EventRecord)
    → IsOrdered store
    → persist_event event store ≡ ok (store', stored)
    → IsOrdered store'
      × All (λ old. Precedes old stored) store.events
      × (event.created_at ≤ stored.created_at)
unfolding persist_event
persist_event-IsOrdered event store store' stored ordered h =
    elim (Option-cases (insert_row event_key (sequenced store event) store.events)) [
      | inl e ↦ absurd (ground arith)
      | inr (events, e) ↦
          let same : sequenced store event ≡ stored = ground arith in
          let follows = sequenced-follows store event ordered in
          let (_, shape) =
            insert_row-eq_some event_key (sequenced store event) store.events events e in
          subst
            (λ z.
              IsOrdered store'
              × All (λ old. Precedes old z) store.events
              × (event.created_at ≤ z.created_at))
            same
            (
              subst IsOrdered (stored_store event store store' stored events e h) record {
                causal =
                    rw shape
                      (IsCausal-snoc store.events (sequenced store event) ordered.causal follows);
                counted = rw shape (
                    All-append _ store.events (sequenced store event ∷ [])
                      (All-map _ _ (λ old (c : old.sequence ≤ store.event_sequence). omega arith)
                        store.events ordered.counted)
                      (unfold sequenced in (omega arith, tt)));
                ids =
                    insert_row-IsKeyed event_key (sequenced store event) store.events events e
                      ordered.ids;
              },
              follows,
              unfold sequenced ensure_utc in (causally_after_lem _ (utc event.created_at)).0,
            )
    ]
