-- ===== src/Tests/Delivery.antt =====
-- Delivery to a concrete stream: a list of entries, the newest last, that takes increasing ids.
use goblin_king.Base.{
  ℕ, ◌<◌, String, ◌==◌, eq_refl, ◌≡◌, refl, true, false, ◌&&◌, Option, none, some, List, [], ◌∷◌,
  ◌++◌, map, any, all, arith, ltb, eqb, if◌then◌else◌, All,
}
use goblin_king.Contracts.{EventRecord}
use goblin_king.Table.{select_where, order_by, place}
use goblin_king.Store.Events.Causal.{IsCausal}
use goblin_king.Delivery.{
  Redis, Codec, DeliveryState, deliver_rows, deliver_loop, deliver_through, pending, append,
  start_of, next_batch,
}
use goblin_king.Delivery.Batches.{deliver_loop-rows, settle}
use goblin_king.Delivery.Rows.{IsStream, entry_of}
use goblin_king.Delivery.Stored.{
  IsDeliveredFrom, deliver_through-IsDelivered, deliver_through-appends,
}
use goblin_king.Tests.Samples.{first_event, second_event}

abbrev Entries : Type 0
Entries = List (ℕ × String)

abbrev taken : ℕ → Entries → Option String
taken id [] = none
taken id (entry ∷ entries) = if eqb entry.0 id then some entry.1 else taken id entries

abbrev newest : Entries → Option (ℕ × String)
newest [] = none
newest (entry ∷ []) = some entry
newest (entry ∷ other ∷ entries) = newest (other ∷ entries)

abbrev memory_stream : Redis Entries
memory_stream = record {
  xadd = λ id event entries.
      if all (λ entry. ltb entry.0 id) entries then some (entries ++ (id, event) ∷ []) else none;
  xrange = taken;
  xrevrange = newest;
}

abbrev id_codec : Codec
id_codec = record {
  dumps = λ event. event.id;
  same_payload = λ a b. a == b;
  sequence_of = λ _. some 0;
  id_of = λ event. some event;
}

taken-any :
    (id : ℕ) (event : String) (entries : Entries)
    → taken id entries ≡ some event
    → any (λ entry. eqb entry.0 id && entry.1 == event) entries ≡ true
taken-any id event [] e = cc
taken-any id event (entry ∷ entries) e = ground (arith, eq_refl event, taken-any id event entries)

all-below :
    (id : ℕ) (entries : Entries)
    → All (λ entry. entry.0 < id) entries
    → all (λ entry. ltb entry.0 id) entries ≡ true
all-below id [] a = refl
all-below id (entry ∷ entries) a = let first = a.0 in ground (arith, all-below id entries a.1)

memory_stream-IsStream : IsStream memory_stream id_codec (λ entries. entries)
memory_stream-IsStream = record {
  grows = λ id event stream appended e. ground arith;
  held = taken-any;
  accepts =
      λ id event stream below. (stream ++ (id, event) ∷ [], rw (all-below id stream below) refl);
  loads = eq_refl;
}

-- The events with sequences 3 and 5; a gap between them was never committed.
abbrev events : List EventRecord
events =
    (record first_event { sequence = 3 })
    ∷ (record second_event { sequence = 5; created_at = 44 })
    ∷ []

events-IsCausal : IsCausal events
events-IsCausal = (((omega arith, omega arith), tt), (tt, tt))

-- Delivery had reached sequence 2, at an offset of 1000.
abbrev saved_state : Option DeliveryState
saved_state = some (record { delivered_sequence = 2; stream_id_offset = some 1000 })

abbrev old_entries : Entries
old_entries = (1002, "e0") ∷ []

delivery_run :
    (deliver_through memory_stream id_codec events 6 saved_state old_entries).stream
    ≡ (1002, "e0") ∷ (1003, "e1") ∷ (1005, "e2") ∷ []
unfolding deliver_through start_of deliver_loop deliver_rows append next_batch select_where order_by
    place
delivery_run = refl

-- A newest entry that is no JSON ends a delivery that has to read it.
abbrev broken_codec : Codec
broken_codec = record id_codec { sequence_of = λ _. none }

broken_run : (deliver_through memory_stream broken_codec events 6 none old_entries).raised ≡ true
unfolding deliver_through start_of goblin_king.Delivery.bootstrap
    goblin_king.Delivery.entry_sequence
broken_run = refl

deliver_loop-rows_example :
    deliver_loop 5 memory_stream id_codec events 6 1000 2 old_entries
    ≡ settle 6 (deliver_rows memory_stream id_codec 1000 (pending 2 6 events) 2 old_entries)
deliver_loop-rows_example =
    deliver_loop-rows memory_stream id_codec 1000 5 6 2 events old_entries events-IsCausal
      (omega arith)

deliver_through-IsDelivered_example :
    (start : ℕ × ℕ) × (start_of memory_stream id_codec events saved_state old_entries ≡ some start)
    × IsDeliveredFrom memory_stream id_codec
        (λ entries. entries)
        memory_stream-IsStream
        events
        events-IsCausal
        6
        saved_state
        old_entries
        start
unfolding deliver_through start_of deliver_loop deliver_rows append next_batch select_where order_by
    place
deliver_through-IsDelivered_example =
    deliver_through-IsDelivered memory_stream id_codec (λ entries. entries) memory_stream-IsStream
      events events-IsCausal 6 saved_state old_entries refl

deliver_through-appends_example :
    ((deliver_through memory_stream id_codec events 6 saved_state old_entries).raised ≡ false)
    × ((deliver_through memory_stream id_codec events 6 saved_state old_entries).stream
        ≡ old_entries ++ map (entry_of id_codec 1000) (pending 2 6 events))
unfolding start_of
deliver_through-appends_example =
    deliver_through-appends memory_stream id_codec (λ entries. entries) memory_stream-IsStream
      events events-IsCausal 6 saved_state old_entries 2 1000 refl (omega arith, tt)
