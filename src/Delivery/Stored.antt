-- ===== src/Delivery/Stored.antt =====
-- What a delivery leaves in the stream and in its row (`deliver_through` of event_delivery.py).
use goblin_king.Base.{
  ℕ, suc, ◌+◌, ◌<◌, ◌≤◌, max, String, ◌≡◌, refl, ap, ◌∙◌, Option-cases, none, true, false, Option,
  some, List, [], ◌∷◌, ◌++◌, map, arith, ltb, All, All-map, inl, inr,
}
use goblin_king.Contracts.{EventRecord}
use goblin_king.Store.Events.Causal.{IsCausal}
use goblin_king.Delivery.{
  Redis, Codec, pending, deliver_rows, deliver_loop, DeliveryState, Delivery, committed, start_of,
  deliver_through, deliver_from,
}
use goblin_king.Delivery.Pending.{last_sequence, select_where-IsCausal, pending-bounds}
use goblin_king.Delivery.Batches.{deliver_loop-rows, deliver_rows-cases, settle}
use goblin_king.Delivery.Rows.{
  IsStream, Sent, entry_of, is_stored, deliver_rows-stored, deliver_rows-accepted,
}

last_sequence-le :
    (target c : ℕ) (t : List EventRecord)
    → c ≤ target
    → All (λ event. event.sequence ≤ target) t
    → last_sequence c t ≤ target
unfolding last_sequence
last_sequence-le target c [] h a = h
last_sequence-le target c (x ∷ t) h a = last_sequence-le target x.sequence t a.0 a.1

last_sequence-max :
    (target c : ℕ) (t : List EventRecord)
    → All (λ event. (c < event.sequence) × (event.sequence ≤ target)) t
    → max (last_sequence c t) target ≡ max c target
unfolding last_sequence
last_sequence-max target c [] a = refl
last_sequence-max target c (x ∷ t) a =
    let le = last_sequence-le target x.sequence t a.0.1 (All-map _ _ (λ y b. b.1) t a.1) in
    let low = a.0.0 in let high = a.0.1 in omega arith

-- What a delivery that did not raise has done, from the cursor and the offset that it started at.
pub record IsDelivered {S : Type 0} (codec : Codec) (history : S → List (ℕ × String))
    (events : List EventRecord) (target_sequence cursor offset : ℕ) (stream : S)
    (delivery : Delivery S) : Type 0 where
  -- the cursor stands at the target, or where it started if that is higher; the offset is kept
  pub saved :
      delivery.state
      ≡ some (record {
        delivered_sequence = max cursor target_sequence;
        stream_id_offset = some offset;
      })
  -- each pending event is in the history under its id
  pub complete :
      All
        (λ event. is_stored codec offset event (history delivery.stream) ≡ true)
        (pending cursor target_sequence events)
  -- what was sent is pending events, each at most once, in their order
  pub new_entries : List (ℕ × String)
  pub appended : history delivery.stream ≡ history stream ++ new_entries
  pub in_order : Sent codec offset (pending cursor target_sequence events) new_entries

module _ {S : Type 0} (redis : Redis S) (codec : Codec) (history : S → List (ℕ × String))
    (laws : IsStream redis codec history) (events : List EventRecord) (causal : IsCausal events)
    (target_sequence : ℕ) (state : Option DeliveryState) (stream : S) where
  abbrev delivery : Delivery S
  delivery = deliver_through redis codec events target_sequence state stream

  -- What a delivery that starts at a cursor and an offset leaves behind.
  abbrev pub IsDeliveredFrom : ℕ × ℕ → Type 0
  IsDeliveredFrom (cursor, offset) =
      IsDelivered codec history events target_sequence cursor offset stream delivery

  module _ (first_cursor first_offset : ℕ)
      (started : start_of redis codec events state stream ≡ some (first_cursor, first_offset)) where
    -- A delivery is one pass over the pending events.
    deliver_through-rows :
        delivery
        ≡ committed first_offset state stream (
            settle target_sequence (
              deliver_rows redis codec first_offset
                (pending first_cursor target_sequence events)
                first_cursor
                stream))
    unfolding deliver_through
    deliver_through-rows =
        ap (deliver_from redis codec events target_sequence state stream) started
        ∙ unfold deliver_from in
          ap (committed first_offset state stream) (
            deliver_loop-rows redis codec first_offset (suc target_sequence) target_sequence
              first_cursor events stream causal (omega arith))

    delivered_from : delivery.raised ≡ false → IsDeliveredFrom (first_cursor, first_offset)
    delivered_from quiet =
        elim (deliver_rows-cases redis codec first_offset
          (pending first_cursor target_sequence events) first_cursor stream) [
            | inl (appended, e) ↦
                let (entries, grown, order, all) =
                  deliver_rows-stored redis codec history laws first_offset
                    (pending first_cursor target_sequence events) first_cursor _ stream appended
                    e in
                rw (deliver_through-rows, e)
                  (record {
                    saved =
                        ap
                          (λ n. some (record {
                            delivered_sequence = n;
                            stream_id_offset = some first_offset;
                          }))
                          (last_sequence-max target_sequence first_cursor
                            (pending first_cursor target_sequence events)
                            (pending-bounds first_cursor target_sequence events));
                    complete = all;
                    new_entries = entries;
                    appended = grown;
                    in_order = order;
                  })
            | inr (appended, e) ↦
                let raised : delivery.raised ≡ true = rw (deliver_through-rows, e) refl in cc
          ]

    -- Where the events are in causal order, the delivery's start is known, from its row or from the
    -- newest entry of the stream, and every id of the history is below that of the first event to
    -- send, a delivery does not raise and appends exactly the pending events, in their order.
    pub deliver_through-appends :
        All (λ entry. entry.0 < first_offset + suc first_cursor) (history stream)
        → (delivery.raised ≡ false)
          × (history delivery.stream
              ≡ history stream
                ++ map (entry_of codec first_offset) (pending first_cursor target_sequence events))
    deliver_through-appends below =
        let (appended, e, all) =
          deliver_rows-accepted redis codec history laws first_offset
            (pending first_cursor target_sequence events) first_cursor stream
            (select_where-IsCausal _ events causal)
            (All-map _ _ (λ _ b. b.0) _ (pending-bounds first_cursor target_sequence events))
            below in
        rw (deliver_through-rows, e) (refl, all)

  -- A delivery whose start cannot be read raises, sends nothing and keeps its row.
  unstarted :
      start_of redis codec events state stream ≡ none
      → delivery ≡ record { stream = stream; state = state; raised = true }
  unfolding deliver_through deliver_from
  unstarted e = ap (deliver_from redis codec events target_sequence state stream) e

  -- Where the events are in causal order, a delivery that does not raise has read a cursor and an
  -- offset to start from, leaves every pending event up to the target in the stream's history under
  -- its id, has sent pending events only, each at most once and in their order, and saves as its
  -- cursor the target, or the cursor that it started from if that is higher.
  pub deliver_through-IsDelivered :
      delivery.raised ≡ false
      → (start : ℕ × ℕ) × (start_of redis codec events state stream ≡ some start)
        × IsDeliveredFrom start
  deliver_through-IsDelivered quiet =
      elim (Option-cases (start_of redis codec events state stream)) [
        | inl e ↦
            let raised : delivery.raised ≡ true = ap (λ d. d.raised) (unstarted e) in absurd (cc)
        | inr (start, e) ↦ (start, e, delivered_from start.0 start.1 e quiet)
      ]

-- Once a delivery has saved its cursor, delivering through a sequence that it covers changes nothing.
pub deliver_through_again :
    {S : Type 0} (redis : Redis S) (codec : Codec) (events : List EventRecord)
    (target_sequence cursor offset : ℕ) (stream : S)
    → target_sequence ≤ cursor
    → deliver_through redis codec events target_sequence
        (some (record { delivered_sequence = cursor; stream_id_offset = some offset }))
        stream
      ≡ (record {
        stream = stream;
        state = some (record { delivered_sequence = cursor; stream_id_offset = some offset });
        raised = false;
      })
unfolding deliver_through deliver_from start_of deliver_loop
deliver_through_again redis codec events target_sequence cursor offset stream h =
    let e : ltb cursor target_sequence ≡ false = ground arith in rw (deliver_loop, e) refl
