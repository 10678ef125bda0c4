-- ===== src/RunEvents/Publisher/Published.antt =====
-- From an emission to a read: a read of the run right after an emission finds the event.
use goblin_king.Base.{
  ℕ, zero, suc, String, ◌≡◌, refl, ap, ◌∙◌, subst, ◌≤◌, ◌<◌, true, ◌&&◌, Option, some, List, [],
  ◌∷◌, ◌++◌, leb, length, take, or_else, All, All-append, All-split, ok, arith, Bool-cases, inl,
  inr,
}
use goblin_king.Base.Int.{ℤ, pos}
use goblin_king.Contracts.{Fields, end}
use goblin_king.Table.{order_by}
use goblin_king.RunEvents.{
  RunEventEnvelope, RunEventCodec, StreamEntry, read_entry, decode_entries, add_found, monotonic,
  by_sequence, page_of, read_run_event_entries, default_run_event_max_events,
  max_run_event_read_limit,
}
use goblin_king.RunEvents.Keys.{run_event_stream_key}
use goblin_king.RunEvents.Ascending.{Item, AccountsFor}
use goblin_king.RunEvents.Page.{read_run_event_entries_complete}
use goblin_king.RunEvents.Publisher.{
  RunEventPublisher, RunEventRedis, new_publisher, emit_run_event,
}
use goblin_king.RunEvents.Publisher.Configured.{new_publisher-IsConfigured}
use goblin_king.RunEvents.Publisher.Readback.{
  IsReadBack, emit_run_event-IsEmitted, IsEmitted-read_entry,
}
use goblin_king.RunEvents.Publisher.Sent.{IsServer, keep_last, emit_run_event-entries}

module _ {A : Type 0} where
  -- A stream that keeps an entry or more keeps the newest one, and no more than it may.
  keep_last-newest :
      (P : A → Type 0) (n : ℕ) (xs : List A) (x : A)
      → 1 ≤ n
      → All P xs
      → (front : List A) × (keep_last n (xs ++ x ∷ []) ≡ front ++ x ∷ [])
        × All P front
        × (length (keep_last n (xs ++ x ∷ [])) ≤ n)
  keep_last-newest P n [] x low all =
      let e : leb 1 n ≡ true = ground arith in ([], rw e refl, tt, rw e low)
  keep_last-newest P n (y ∷ xs) x low all = elim (Bool-cases (leb (length (y ∷ xs ++ x ∷ [])) n)) [
    | inl e ↦ (y ∷ xs, rw e refl, all, rw e (ground arith))
    | inr e ↦
        let (front, same, every, short) = keep_last-newest P n xs x low all.1 in
        (front, rw e same, every, rw e short)
  ]

  take-all : (n : ℕ) (xs : List A) → length xs ≤ n → take n xs ≡ xs
  take-all zero [] h = refl
  take-all zero (x ∷ xs) h = absurd (omega arith)
  take-all (suc n) [] h = refl
  take-all (suc n) (x ∷ xs) h = ap (λ l. x ∷ l) (take-all n xs (omega arith))

  All-last : (P : A → Type 0) (front : List A) (x : A) → All P (front ++ x ∷ []) → P x
  All-last P front x all = (All-split P front (x ∷ []) all).1.0

module _ {B : Type 0} (codec : RunEventCodec B) (run_id : String) (after_sequence : ℕ) where
  -- The reader gets through an entry, whether it takes it or not.
  abbrev pub IsReadable : StreamEntry B → Type 0
  IsReadable entry =
      (found : Option Item) × (read_entry codec run_id after_sequence entry ≡ ok found)

  decode_entries-returns :
      (entries : List (StreamEntry B))
      → All IsReadable entries
      → (decoded : List Item) × (decode_entries codec run_id after_sequence entries ≡ ok decoded)
  unfolding decode_entries
  decode_entries-returns [] all = ([], refl)
  decode_entries-returns (entry ∷ entries) all =
      let (found, read) = all.0 in
      let (decoded, rest) = decode_entries-returns entries all.1 in
      (add_found found decoded, rw (read, rest) refl)

  read_run_event_entries-returns :
      (xrange : (key : String) (count : ℕ) → Option (List (StreamEntry B))) (limit : ℕ)
      (entries : List (StreamEntry B))
      → 1 ≤ limit
      → limit ≤ max_run_event_read_limit
      → xrange (run_event_stream_key run_id) default_run_event_max_events ≡ some entries
      → All IsReadable entries
      → (page : List Item) × (read_run_event_entries codec xrange run_id
            (pos after_sequence)
            (pos limit)
          ≡ ok page)
  unfolding read_run_event_entries page_of
  read_run_event_entries-returns xrange limit entries low high answered all =
      let (decoded, e) = decode_entries-returns entries all in
      let within : (leb 1 limit && leb limit max_run_event_read_limit) ≡ true = ground arith in
      (
        take limit (monotonic after_sequence (order_by by_sequence decoded)),
        rw (within, answered, e) refl,
      )

module _ {B W : Type 0} (codec : RunEventCodec B) (redis : RunEventRedis W)
    (entries : String → W → List (StreamEntry B)) where
  -- XRANGE over the entries of a state.
  abbrev pub xrange_in : W → (key : String) (count : ℕ) → Option (List (StreamEntry B))
  xrange_in w key count = some (take count (entries key w))

  -- What a read finds of an event: its entry is the newest one and is read as the event, and a page
  -- is returned that has an event with its sequence, or is full of events with lower ones.
  pub record IsPublished (run_id : String) (after_sequence limit : ℕ) (event : RunEventEnvelope)
      (w' : W) : Type 0 where
    pub older : List (StreamEntry B)
    pub entry : StreamEntry B
    pub stream_id : String
    pub newest : entries (run_event_stream_key run_id) w' ≡ older ++ entry ∷ []
    pub read_back : read_entry codec run_id after_sequence entry ≡ ok (some (stream_id, event))
    pub page : List Item
    pub returned :
        read_run_event_entries codec (xrange_in w') run_id (pos after_sequence) (pos limit)
        ≡ ok page
    pub accounted : AccountsFor limit page event.sequence

  module _ (publisher : RunEventPublisher) (server : IsServer codec redis publisher entries)
      (run_id sequence_key rate_key : String)
      (max_events max_payload_bytes min_interval_ms ttl_seconds : ℤ) (event_type : String)
      (payload : Option Fields) (created_at : Option ℕ) (utc_now : ℕ) (event : RunEventEnvelope)
      (w w' : W) (after_sequence limit : ℕ) where
    -- Where a publisher was built for a run's stream, an event that it emitted is read right after
    -- by any read of the run from before it with a limit in range, where the codec reads the
    -- event's own JSON back within the reader's bound, and the reader gets through the entries that
    -- the stream had: the newest entry is read as the event, and the page that is returned has an
    -- event with its sequence, or is full of events with lower ones.
    pub emit_run_event-IsPublished :
        new_publisher run_id
            (run_event_stream_key run_id)
            sequence_key
            rate_key
            max_events
            max_payload_bytes
            min_interval_ms
            ttl_seconds
          ≡ ok publisher
        → emit_run_event codec redis publisher event_type payload created_at utc_now w
          ≡ (w', ok event)
        → ((json : String)
            → codec.model_dump_json event ≡ some json
            → IsReadBack codec redis publisher event json)
        → All (IsReadable codec run_id after_sequence) (entries (run_event_stream_key run_id) w)
        → after_sequence < event.sequence
        → 1 ≤ limit
        → limit ≤ max_run_event_read_limit
        → IsPublished run_id after_sequence limit event w'
    emit_run_event-IsPublished built sent reads readable later low high =
        let (same_run, same_stream, some_event, few, small) =
          new_publisher-IsConfigured run_id (run_event_stream_key run_id) sequence_key rate_key
            max_events max_payload_bytes min_interval_ms ttl_seconds publisher built in
        let (json, dumped, entry, stream_id, shown, appended) =
          emit_run_event-entries codec redis publisher entries server event_type payload created_at
            utc_now event w w' sent in
        let key = run_event_stream_key run_id in
        let kept : entries key w' ≡ keep_last publisher.max_events (entries key w ++ entry ∷ []) =
          subst (λ k. entries k w' ≡ keep_last publisher.max_events (entries k w ++ entry ∷ []))
            same_stream appended in
        let (older, same, fine, short) =
          keep_last-newest (IsReadable codec run_id after_sequence) publisher.max_events
            (entries key w) entry some_event readable in
        let newest : entries key w' ≡ older ++ entry ∷ [] = kept ∙ same in
        let read : read_entry codec run_id after_sequence entry ≡ ok (some (stream_id, event)) =
          subst (λ r. read_entry codec r after_sequence entry ≡ ok (some (stream_id, event)))
            same_run
            (IsEmitted-read_entry codec redis publisher (or_else payload end) event entry stream_id
              json after_sequence small
              (emit_run_event-IsEmitted codec redis publisher event_type payload created_at utc_now
                w event (ap (λ r. r.1) sent))
              shown (reads json dumped) later) in
        let all_read : All (IsReadable codec run_id after_sequence) (older ++ entry ∷ []) =
          All-append _ older (entry ∷ []) fine ((some (stream_id, event), read), tt) in
        let bound : length (older ++ entry ∷ []) ≤ default_run_event_max_events =
          subst (λ l. length l ≤ default_run_event_max_events) same (omega (arith, short, few)) in
        let answered : xrange_in w' key default_run_event_max_events ≡ some (older ++ entry ∷ []) =
          ap some (
            ap (take default_run_event_max_events) newest
            ∙ take-all default_run_event_max_events (older ++ entry ∷ []) bound) in
        let (page, returned) =
          read_run_event_entries-returns codec run_id after_sequence (xrange_in w') limit
            (older ++ entry ∷ []) low high answered all_read in
        let accounts =
          read_run_event_entries_complete codec run_id after_sequence (xrange_in w') limit page
            (older ++ entry ∷ []) answered returned in
        record {
          older = older;
          entry = entry;
          stream_id = stream_id;
          newest = newest;
          read_back = read;
          page = page;
          returned = returned;
          accounted = All-last _ older entry accounts (stream_id, event) read;
        }
