-- ===== src/RunEvents.antt =====
-- The envelope of a run's event, and the reader of a run's stream (run_events.py):
-- read_run_event_entries. The Redis stream, UTF-8 and the JSON codec are parameters.
pub mod Keys
pub mod Publisher
pub mod Ascending
pub mod Decoded
pub mod Page
use goblin_king.Base.{
  ℕ, suc, String, ◌==◌, Bool, true, false, not, ◌&&◌, ◌||◌, Option, none, some, List, [], ◌∷◌, take,
  ◌+◌, leb, ltb, Result, ok, raise, ◌>>=◌, if◌then◌else◌,
}
use goblin_king.Base.Int.{ℤ, pos, negsuc}
use goblin_king.Contracts.{Fields}
use goblin_king.Table.{order_by}
use goblin_king.RunEvents.Keys.{run_event_stream_key}

abbrev pub default_run_event_max_events : ℕ
default_run_event_max_events = 256

abbrev pub default_run_event_max_payload_bytes : ℕ
default_run_event_max_payload_bytes = 4096

abbrev pub max_run_event_read_limit : ℕ
max_run_event_read_limit = 256

-- RunEventEnvelope of contracts.py
pub record RunEventEnvelope : Type 0 where
  pub sequence : ℕ
  pub created_at : ℕ
  pub event_type : String
  pub run_id : String
  pub payload : Fields

-- The refusals of a RunEventError, the RunEventTransportError, and the UnicodeError of a text that
-- has no UTF-8 or of bytes that are none, which nothing here catches.
pub data RunEventError : Type 0 where
  max_events_out_of_range : RunEventError
  max_payload_bytes_out_of_range : RunEventError
  min_interval_ms_out_of_range : RunEventError
  ttl_seconds_out_of_range : RunEventError
  unsupported_type : (event_type : String) → RunEventError
  not_serializable : RunEventError
  payload_exceeds : (max_payload_bytes payload_bytes : ℕ) → RunEventError
  limited_to_one_every : (min_interval_ms : ℕ) → RunEventError
  percent_out_of_range : RunEventError
  after_sequence_negative : RunEventError
  limit_out_of_range : RunEventError
  transport_unavailable : RunEventError
  unicode_error : RunEventError

-- Bytes of type B, or a text: what the Redis client returns.
pub data RedisText (B : Type 0) : Type 0 where
  bytes : B → RedisText B
  text : String → RedisText B

-- UTF-8 and JSON, as Python and pydantic have them; `none` is the exception.
pub record RunEventCodec (B : Type 0) : Type 0 where
  -- `len(text.encode("utf-8"))`
  pub utf8_size : String → Option ℕ
  -- `raw.decode("utf-8")`
  pub decode : B → Option String
  -- `bool(raw)`
  pub is_present : B → Bool
  -- `json.dumps(payload, separators=(",", ":"), ensure_ascii=False)`
  pub dumps : Fields → Option String
  -- `event.model_dump_json()`
  pub model_dump_json : RunEventEnvelope → Option String
  -- `RunEventEnvelope.model_validate_json(text)`
  pub model_validate_json : String → Option RunEventEnvelope

-- An entry of the stream: its id, and what its fields have under b"event" and under "event".
pub record StreamEntry (B : Type 0) : Type 0 where
  pub stream_id : RedisText B
  pub bytes_event : Option (RedisText B)
  pub text_event : Option (RedisText B)

-- an exception that is not caught
abbrev pub or_unicode_error {ℓ} : {A : Type ℓ} → Option A → Result RunEventError A
or_unicode_error none = raise unicode_error
or_unicode_error (some a) = ok a

abbrev pub add_found {ℓ} : {A : Type ℓ} → Option A → List A → List A
add_found none items = items
add_found (some item) items = item ∷ items

module _ {B : Type 0} (codec : RunEventCodec B) where
  abbrev is_truthy : RedisText B → Bool
  is_truthy (bytes raw) = codec.is_present raw
  is_truthy (text raw) = not (raw == "")

  -- `fields.get(b"event") or fields.get("event")`
  unfoldable pub raw_event : StreamEntry B → Option (RedisText B)
  raw_event entry = elim entry.bytes_event [
    | none ↦ entry.text_event
    | some raw ↦ if is_truthy raw then some raw else entry.text_event
  ]

  -- `raw.decode("utf-8") if isinstance(raw, bytes) else str(raw)`
  abbrev pub as_text : RedisText B → Result RunEventError String
  as_text (bytes raw) = or_unicode_error (codec.decode raw)
  as_text (text raw) = ok raw

  -- the size of `json.dumps(event.payload, ..)` in UTF-8
  unfoldable pub payload_size : Fields → Result RunEventError ℕ
  payload_size payload =
      or_unicode_error (codec.dumps payload) >>= λ json. or_unicode_error (codec.utf8_size json)

  -- The tests on one validated event; `none` is a `continue`.
  unfoldable pub checked_event :
      (run_id : String) (after_sequence : ℕ) (stream_id : RedisText B)
      → RunEventEnvelope
      → Result RunEventError (Option (String × RunEventEnvelope))
  unfolding payload_size
  checked_event run_id after_sequence stream_id event = payload_size event.payload >>= λ size.
      if ltb default_run_event_max_payload_bytes size
      then ok none
      else if not (event.run_id == run_id) || leb event.sequence after_sequence
      then ok none
      else (as_text stream_id >>= λ decoded_id. ok (some (decoded_id, event)))

  -- One turn of the loop over the entries.
  unfoldable pub read_entry :
      (run_id : String) (after_sequence : ℕ)
      → StreamEntry B
      → Result RunEventError (Option (String × RunEventEnvelope))
  unfolding raw_event checked_event
  read_entry run_id after_sequence entry = elim (raw_event entry) [
    | none ↦ ok none
    | some raw ↦ as_text raw >>= λ event_text.
        or_unicode_error (codec.utf8_size event_text) >>= λ size.
        if ltb (default_run_event_max_payload_bytes + 1024) size
        then ok none
        else elim (codec.model_validate_json event_text) [
          | none ↦ ok none
          | some event ↦ checked_event run_id after_sequence entry.stream_id event
        ]
  ]

  unfoldable pub decode_entries :
      (run_id : String) (after_sequence : ℕ)
      → List (StreamEntry B)
      → Result RunEventError (List (String × RunEventEnvelope))
  unfolding read_entry
  decode_entries run_id after_sequence [] = ok []
  decode_entries run_id after_sequence (entry ∷ entries) =
      read_entry run_id after_sequence entry >>= λ found.
      decode_entries run_id after_sequence entries >>= λ rest. ok (add_found found rest)

-- The second loop: an event that does not come after the last one taken is dropped.
unfoldable pub monotonic :
    (last_sequence : ℕ) → List (String × RunEventEnvelope) → List (String × RunEventEnvelope)
monotonic last_sequence [] = []
monotonic last_sequence (item ∷ items) =
    if leb item.1.sequence last_sequence
    then monotonic last_sequence items
    else item ∷ monotonic item.1.sequence items

abbrev pub by_sequence : (a b : String × RunEventEnvelope) → Bool
by_sequence a b = leb a.1.sequence b.1.sequence

module _ {B : Type 0} (codec : RunEventCodec B) where
  unfoldable pub page_of :
      (run_id : String) (after_sequence limit : ℕ)
      → Result RunEventError (List (StreamEntry B))
      → Result RunEventError (List (String × RunEventEnvelope))
  unfolding decode_entries monotonic
  page_of run_id after_sequence limit entries = entries >>= λ found.
      decode_entries codec run_id after_sequence found >>= λ decoded.
      ok (take limit (monotonic after_sequence (order_by by_sequence decoded)))

  -- `xrange` answers XRANGE of a key from "-" to "+" with a count; `none` is a RedisError.
  unfoldable pub read_run_event_entries :
      (xrange : (key : String) (count : ℕ) → Option (List (StreamEntry B)))
      → (run_id : String) (after_sequence limit : ℤ)
      → Result RunEventError (List (String × RunEventEnvelope))
  unfolding page_of run_event_stream_key
  read_run_event_entries xrange run_id (negsuc _) limit = raise after_sequence_negative
  read_run_event_entries xrange run_id (pos _) (negsuc _) = raise limit_out_of_range
  read_run_event_entries xrange run_id (pos after_sequence) (pos limit) =
      if leb 1 limit && leb limit max_run_event_read_limit
      then page_of run_id after_sequence limit
          (elim (xrange (run_event_stream_key run_id) default_run_event_max_events) [
            | none ↦ raise transport_unavailable
            | some entries ↦ ok entries
          ])
      else raise limit_out_of_range
