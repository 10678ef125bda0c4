-- ===== src/RunEvents/Page.antt =====
-- What read_run_event_entries returns of a stream: an increasing page of the run's events, which
-- leaves out nothing below its last one.
use goblin_king.Base.{
  ℕ, String, ◌≡◌, ◌≤◌, Bool, true, false, Option, none, some, List, take, All, length, subst,
  All-both, Result, ok, raise, bind-ok, arith, length-take-le, if◌then◌else◌,
}
use goblin_king.Base.Int.{pos}
use goblin_king.Table.{order_by}
use goblin_king.Table.Sorted.{All-order_by, order_by-IsSorted, order_by-All}
use goblin_king.RunEvents.{
  RunEventError, RunEventCodec, StreamEntry, read_entry, limit_out_of_range, transport_unavailable,
  decode_entries, monotonic, by_sequence, page_of, read_run_event_entries,
  default_run_event_max_events,
}
use goblin_king.RunEvents.Keys.{run_event_stream_key}
use goblin_king.RunEvents.Ascending.{
  Item, IsAscending, AccountsFor, monotonic-IsAscending, take-IsAscending, All-monotonic, All-take,
  monotonic-has_sequence, take-AccountsFor,
}
use goblin_king.RunEvents.Decoded.{IsWanted, decode_entries-IsWanted, decode_entries-kept}

module _ {B : Type 0} (codec : RunEventCodec B) (run_id : String) (after_sequence : ℕ) where
  page_of-cases :
      (limit : ℕ) (found : Result RunEventError (List (StreamEntry B))) (page : List Item)
      → page_of codec run_id after_sequence limit found ≡ ok page
      → (entries : List (StreamEntry B)) × (decoded : List Item) × (found ≡ ok entries)
        × (decode_entries codec run_id after_sequence entries ≡ ok decoded)
        × (take limit (monotonic after_sequence (order_by by_sequence decoded)) ≡ page)
  unfolding page_of
  page_of-cases limit found page h =
      let (entries, is_found, decoding) = bind-ok found _ page h in
      let (decoded, is_decoded, same) =
        bind-ok (decode_entries codec run_id after_sequence entries) _ page decoding in
      (entries, decoded, is_found, is_decoded, ground arith)

  module _ (xrange : (key : String) (count : ℕ) → Option (List (StreamEntry B))) (limit : ℕ)
      (page : List Item) where
    permitted :
        (test : Bool) (result : Result RunEventError (List Item))
        → (if test then result else raise limit_out_of_range) ≡ ok page
        → result ≡ ok page
    permitted true result h = h
    permitted false result h = ground arith

    from_stream :
        (answer : Option (List (StreamEntry B))) (entries : List (StreamEntry B))
        → (elim answer [ none ↦ raise transport_unavailable | some found ↦ ok found ]) ≡ ok entries
        → answer ≡ some entries
    from_stream none entries h = ground arith
    from_stream (some found) entries h = ground arith

    -- What the stream answers to the one request that a read makes.
    abbrev pub Answers : List (StreamEntry B) → Type 0
    Answers entries =
        xrange (run_event_stream_key run_id) default_run_event_max_events ≡ some entries

    returned-page_of :
        read_run_event_entries codec xrange run_id (pos after_sequence) (pos limit) ≡ ok page
        → (entries : List (StreamEntry B)) × (decoded : List Item) × Answers entries
          × (decode_entries codec run_id after_sequence entries ≡ ok decoded)
          × (take limit (monotonic after_sequence (order_by by_sequence decoded)) ≡ page)
    unfolding read_run_event_entries
    returned-page_of h =
        let within = permitted _ _ h in
        let (entries, decoded, answered, decoding, same) = page_of-cases limit _ page within in
        (entries, decoded, from_stream _ entries answered, decoding, same)

    -- A page that a read returns is strictly increasing in sequence and above the given one, has at
    -- most `limit` events, and each is of the run and has a payload within the bound on its size.
    pub read_run_event_entries-IsPage :
        read_run_event_entries codec xrange run_id (pos after_sequence) (pos limit) ≡ ok page
        → IsAscending after_sequence page
          × All (IsWanted codec run_id after_sequence) page
          × (length page ≤ limit)
    read_run_event_entries-IsPage h =
        let (entries, decoded, _, decoding, same) = returned-page_of h in
        let sorted = order_by by_sequence decoded in
        let wanted = decode_entries-IsWanted codec run_id after_sequence entries decoded decoding in
        subst
          (λ p.
            IsAscending after_sequence p
            × All (IsWanted codec run_id after_sequence) p
            × (length p ≤ limit))
          same
          (
            take-IsAscending limit after_sequence (monotonic after_sequence sorted)
                (monotonic-IsAscending after_sequence sorted),
            All-take (IsWanted codec run_id after_sequence) limit (monotonic after_sequence sorted)
                (All-monotonic (IsWanted codec run_id after_sequence) after_sequence sorted
                  (All-order_by by_sequence (IsWanted codec run_id after_sequence) decoded wanted)),
            length-take-le limit (monotonic after_sequence sorted),
          )

    -- No event that a read accepts from the stream is passed over: a page that is returned has an
    -- event with its sequence, or is full of events with lower ones.
    pub read_run_event_entries_complete :
        (entries : List (StreamEntry B))
        → Answers entries
        → read_run_event_entries codec xrange run_id (pos after_sequence) (pos limit) ≡ ok page
        → All
            (λ entry.
              (item : Item)
              → read_entry codec run_id after_sequence entry ≡ ok (some item)
              → AccountsFor limit page item.1.sequence)
            entries
    read_run_event_entries_complete entries answer h =
        let (found, decoded, answered, decoding, same) = returned-page_of h in
        let these : found ≡ entries = ground arith in
        let wanted = decode_entries-IsWanted codec run_id after_sequence found decoded decoding in
        let sorted = order_by by_sequence decoded in
        let all_sorted : All (λ item. AccountsFor limit page item.1.sequence) sorted =
          All-both _ _ _
            (λ item covered wanted.
              subst (λ p. AccountsFor limit p item.1.sequence) same
                (take-AccountsFor item.1.sequence limit after_sequence
                  (monotonic after_sequence sorted) (monotonic-IsAscending after_sequence sorted)
                  (covered wanted.1)))
            sorted
            (monotonic-has_sequence after_sequence sorted (
              order_by-IsSorted by_sequence (λ a b e. ground arith) (λ a b c e f. ground arith)
                decoded))
            (All-order_by by_sequence (IsWanted codec run_id after_sequence) decoded wanted) in
        subst
          (λ es.
            All
              (λ entry.
                (item : Item)
                → read_entry codec run_id after_sequence entry ≡ ok (some item)
                → AccountsFor limit page item.1.sequence)
              es)
          these
          (decode_entries-kept codec run_id after_sequence
            (λ item. AccountsFor limit page item.1.sequence) found decoded decoding
            (order_by-All by_sequence _ decoded all_sorted))
