-- ===== src/RunEvents/Decoded.antt =====
-- What the first loop of read_run_event_entries decodes: events of the run, each within the bounds,
-- and each that an entry yields.
use goblin_king.Base.{
  ℕ, String, eq_iff, ◌≡◌, refl, ap, sym, ◌≤◌, ◌<◌, Bool, true, false, Option, none, some, List, [],
  ◌∷◌, All, subst, or_else, Result, ok, raise, ◌>>=◌, bind-ok, arith, if◌then◌else◌,
}
use goblin_king.RunEvents.{
  RunEventEnvelope, RunEventError, RunEventCodec, StreamEntry, RedisText, payload_size, read_entry,
  checked_event, decode_entries, add_found, as_text, or_unicode_error,
  default_run_event_max_payload_bytes, raw_event,
}
use goblin_king.RunEvents.Ascending.{Item}

module _ {B : Type 0} (codec : RunEventCodec B) (run_id : String) (after_sequence : ℕ) where
  -- An event of the run above the sequence, whose payload keeps to the bound.
  abbrev pub IsWanted : Item → Type 0
  IsWanted item =
      (item.1.run_id ≡ run_id)
      × (after_sequence < item.1.sequence)
      × ((size : ℕ) × (payload_size codec item.1.payload ≡ ok size)
          × (size ≤ default_run_event_max_payload_bytes))

  abbrev IsWantedIfAny : Option Item → Type 0
  IsWantedIfAny none = Unit
  IsWantedIfAny (some item) = IsWanted item

  accepted :
      (large other : Bool) (decoded : Result RunEventError String) (event : RunEventEnvelope)
      (item : Item)
      → (if large
          then ok none
          else if other
          then ok none
          else (decoded >>= λ decoded_id. ok (some (decoded_id, event))))
        ≡ ok (some item)
      → (large ≡ false) × (other ≡ false) × (event ≡ item.1)
  accepted true other decoded event item h = ground arith
  accepted false true decoded event item h = ground arith
  accepted false false (raise e) event item h = ground arith
  accepted false false (ok decoded_id) event item h = ground arith

  checked_event-IsWanted :
      (stream_id : RedisText B) (event : RunEventEnvelope) (found : Option Item)
      → checked_event codec run_id after_sequence stream_id event ≡ ok found
      → IsWantedIfAny found
  unfolding checked_event
  checked_event-IsWanted stream_id event none h = tt
  checked_event-IsWanted stream_id event (some item) h =
      let (size, sized, rest) = bind-ok (payload_size codec event.payload) _ (some item) h in
      let (small, own, same) = accepted _ _ (as_text codec stream_id) event item rest in
      subst (λ e. IsWanted (item.0, e)) same
        (ground (arith, eq_iff event.run_id run_id), ground arith, (size, sized, ground arith))

  validated-IsWanted :
      (stream_id : RedisText B) (large : Bool) (event : Option RunEventEnvelope)
      (found : Option Item)
      → (if large then ok none else elim event [
        | none ↦ ok none
        | some event ↦ checked_event codec run_id after_sequence stream_id event
      ])
        ≡ ok found
      → IsWantedIfAny found
  validated-IsWanted stream_id large event none h = tt
  validated-IsWanted stream_id true event (some item) h = ground arith
  validated-IsWanted stream_id false none (some item) h = ground arith
  validated-IsWanted stream_id false (some event) (some item) h =
      checked_event-IsWanted stream_id event (some item) h

  entry-IsWanted :
      (entry : StreamEntry B) (raw : Option (RedisText B)) (found : Option Item)
      → raw_event codec entry ≡ raw
      → read_entry codec run_id after_sequence entry ≡ ok found
      → IsWantedIfAny found
  unfolding read_entry
  entry-IsWanted entry raw none r h = tt
  entry-IsWanted entry none (some item) r h = ground arith
  entry-IsWanted entry (some raw) (some item) r h =
      let opened = rw (r, read_entry) at h in
      let (event_text, _, sizing) = bind-ok (as_text codec raw) _ (some item) opened in
      let (size, _, validating) =
        bind-ok (or_unicode_error (codec.utf8_size event_text)) _ (some item) sizing in
      validated-IsWanted entry.stream_id _ (codec.model_validate_json event_text) (some item)
        validating

  decode_entries-cons :
      (entry : StreamEntry B) (entries : List (StreamEntry B)) (decoded : List Item)
      → decode_entries codec run_id after_sequence (entry ∷ entries) ≡ ok decoded
      → (found : Option Item) × (rest : List Item) × (read_entry codec run_id after_sequence entry
          ≡ ok found)
        × (decode_entries codec run_id after_sequence entries ≡ ok rest)
        × (add_found found rest ≡ decoded)
  unfolding decode_entries
  decode_entries-cons entry entries decoded h =
      let (found, read, collecting) =
        bind-ok (read_entry codec run_id after_sequence entry) _ decoded h in
      let (rest, later, same) =
        bind-ok (decode_entries codec run_id after_sequence entries) _ decoded collecting in
      (found, rest, read, later, ground arith)

  All-add_found :
      (found : Option Item) (rest : List Item)
      → IsWantedIfAny found
      → All IsWanted rest
      → All IsWanted (add_found found rest)
  All-add_found none rest wanted all = all
  All-add_found (some item) rest wanted all = (wanted, all)

  -- What decoding keeps: each decoded event is wanted.
  pub decode_entries-IsWanted :
      (entries : List (StreamEntry B)) (decoded : List Item)
      → decode_entries codec run_id after_sequence entries ≡ ok decoded
      → All IsWanted decoded
  unfolding decode_entries
  decode_entries-IsWanted [] decoded h = ground arith
  decode_entries-IsWanted (entry ∷ entries) decoded h =
      let (found, rest, read, later, same) = decode_entries-cons entry entries decoded h in
      subst (All IsWanted) same (
        All-add_found found rest (entry-IsWanted entry _ found refl read)
          (decode_entries-IsWanted entries rest later))

  add_found-All :
      (P : Item → Type 0) (found : Option Item) (rest : List Item)
      → All P (add_found found rest)
      → ((item : Item) → found ≡ some item → P item) × All P rest
  add_found-All P none rest all = ((λ item e. ground arith), all)
  add_found-All P (some it) rest all = ((λ item e. subst P (ap (λ o. or_else o it) e) all.0), all.1)

  -- Each entry's event is among the decoded ones.
  pub decode_entries-kept :
      (P : Item → Type 0) (entries : List (StreamEntry B)) (decoded : List Item)
      → decode_entries codec run_id after_sequence entries ≡ ok decoded
      → All P decoded
      → All
          (λ entry.
            (item : Item) → read_entry codec run_id after_sequence entry ≡ ok (some item) → P item)
          entries
  decode_entries-kept P [] decoded h all = tt
  decode_entries-kept P (entry ∷ entries) decoded h all =
      let (found, rest, read, later, same) = decode_entries-cons entry entries decoded h in
      let (here, behind) = add_found-All P found rest (subst (All P) (sym same) all) in
      ((λ item e. here item (ground arith)), decode_entries-kept P entries rest later behind)
