-- ===== src/Delivery.antt =====
-- Ordered delivery of the durable events to one Redis stream (event_delivery.py).
pub mod Pending
pub mod Batches
pub mod Rows
pub mod Stored
use goblin_king.Base.{
  ℕ, zero, suc, ◌+◌, ◌-◌, max, String, ◌==◌, Bool, true, false, ◌&&◌, Option, none, some, List, [],
  ◌∷◌, take, ltb, leb, if◌then◌else◌,
}
use goblin_king.Contracts.{EventRecord}
use goblin_king.Table.{select_where, order_by, get_row}
use goblin_king.Store.Events.{event_key, first}

-- The stream of a Redis server in a state of type S. An entry's id is its milliseconds here.
pub record Redis (S : Type 0) : Type 0 where
  -- `none` is a ResponseError
  pub xadd : (milliseconds : ℕ) → (event : String) → S → Option S
  -- the entry of one id
  pub xrange : (milliseconds : ℕ) → S → Option String
  -- the newest entry
  pub xrevrange : S → Option (ℕ × String)

-- The JSON of an event in the stream.
pub record Codec : Type 0 where
  -- `json.dumps(_event_payload(row))`
  pub dumps : EventRecord → String
  -- two texts load as the same payload
  pub same_payload : String → String → Bool
  -- `int(payload.get("sequence") or 0)`, where a negative number counts as 0, and
  -- `payload.get("id")`; `none` of the first is the exception of a text that is no JSON object, or
  -- of a sequence that is no number
  pub sequence_of : String → Option ℕ
  pub id_of : String → Option String

-- The row of event_stream_deliveries.
pub record DeliveryState : Type 0 where
  pub delivered_sequence : ℕ
  pub stream_id_offset : Option ℕ

abbrev pub max_delivery_batch : ℕ
max_delivery_batch = 100

-- Where a pass over rows stands: at a cursor, or at an error that `_append` raised.
pub data Progress (S : Type 0) : Type 0 where
  reached : (cursor : ℕ) → (stream : S) → Progress S
  failed : (stream : S) → Progress S
  out_of_fuel : Progress S

-- WHERE sequence > cursor AND sequence <= target
abbrev pub pending : (cursor target_sequence : ℕ) → List EventRecord → List EventRecord
pending cursor target_sequence events =
    select_where (λ event. ltb cursor event.sequence && leb event.sequence target_sequence) events

unfoldable pub next_batch : (cursor target_sequence : ℕ) → List EventRecord → List EventRecord
next_batch cursor target_sequence events =
    take max_delivery_batch
      (order_by (λ a b. leb a.sequence b.sequence) (pending cursor target_sequence events))

abbrev pub sequence_of_first : List EventRecord → Option ℕ
sequence_of_first events = elim (first (order_by (λ a b. leb a.sequence b.sequence) events)) [
  | none ↦ none
  | some event ↦ some event.sequence
]

abbrev pub stored_sequence : String → List EventRecord → ℕ
stored_sequence id events = elim (get_row event_key id events) [
  | none ↦ 0
  | some event ↦ event.sequence
]

-- The sequence of a stream's entry: the payload's own, or that of the stored event with its id;
-- `none` is an exception.
unfoldable pub entry_sequence : Codec → String → List EventRecord → Option ℕ
entry_sequence codec event events = elim (codec.sequence_of event) [
  | none ↦ none
  | some sequence ↦
      if ltb sequence 1
      then elim (codec.id_of event) [
        | none ↦ some sequence
        | some id ↦ if id == "" then some sequence else some (stored_sequence id events)
      ]
      else some sequence
]

-- The cursor and the offset after the newest entry, whose sequence this is.
abbrev pub resumed : (cursor last_milliseconds sequence : ℕ) → ℕ × ℕ
resumed cursor last_milliseconds sequence =
    if ltb sequence 1
    then (cursor, last_milliseconds)
    else (max cursor sequence, last_milliseconds - sequence)

-- The cursor and the offset of a stream that has no saved offset; `none` is an exception.
unfoldable pub bootstrap :
    {S : Type 0} → Redis S → Codec → List EventRecord → (cursor : ℕ) → S → Option (ℕ × ℕ)
bootstrap redis codec events cursor stream = elim (redis.xrevrange stream) [
  | none ↦ elim (sequence_of_first events) [
    | none ↦ some (cursor, 0)
    | some sequence ↦ some (if ltb 0 sequence then max cursor (sequence - 1) else cursor, 0)
  ]
  | some (last_milliseconds, event) ↦ elim (entry_sequence codec event events) [
    | none ↦ none
    | some sequence ↦ some (resumed cursor last_milliseconds sequence)
  ]
]

-- `_append`: `none` is the ResponseError that it raises again, or the exception of an entry that is
-- there and cannot be read.
unfoldable pub append : {S : Type 0} → Redis S → Codec → (offset : ℕ) → EventRecord → S → Option S
append redis codec offset event stream =
    let stream_id = offset + event.sequence in
    let serialized = codec.dumps event in
    elim (redis.xadd stream_id serialized stream) [
      | some appended ↦ some appended
      | none ↦ elim (redis.xrange stream_id stream) [
        | none ↦ none
        | some held ↦ if codec.same_payload held serialized then some stream else none
      ]
    ]

-- The rows of a batch. The cursor that is saved before a gap is overwritten or rolled back within
-- the same transaction.
unfoldable pub deliver_rows :
    {S : Type 0} → Redis S → Codec → (offset : ℕ) → List EventRecord → (cursor : ℕ) → S → Progress S
deliver_rows redis codec offset [] cursor stream = reached cursor stream
deliver_rows redis codec offset (row ∷ rows) cursor stream =
    elim (append redis codec offset row stream) [
      | none ↦ failed stream
      | some appended ↦ deliver_rows redis codec offset rows row.sequence appended
    ]

-- `while cursor < target_sequence`
unfoldable pub deliver_loop :
    {S : Type 0}
    → (fuel : ℕ) → Redis S
    → Codec
    → List EventRecord
    → (target_sequence offset cursor : ℕ) → S
    → Progress S
deliver_loop zero redis codec events target_sequence offset cursor stream = out_of_fuel
deliver_loop (suc fuel) redis codec events target_sequence offset cursor stream =
    elim (ltb cursor target_sequence) [
      | false ↦ reached cursor stream
      | true ↦ elim (next_batch cursor target_sequence events) [
        | [] ↦ reached target_sequence stream
        | row ∷ rows ↦ elim (deliver_rows redis codec offset (row ∷ rows) cursor stream) [
          | reached next appended ↦
              deliver_loop fuel redis codec events target_sequence offset next appended
          | failed appended ↦ failed appended
          | out_of_fuel ↦ out_of_fuel
        ]
      ]
    ]

-- What is left behind: the stream, and the row; a pass that raised rolls the row back.
pub record Delivery (S : Type 0) : Type 0 where
  pub stream : S
  pub state : Option DeliveryState
  pub raised : Bool

abbrev pub committed :
    {S : Type 0} → (offset : ℕ) → Option DeliveryState → S → Progress S → Delivery S
committed offset state before (reached cursor stream) = record {
  stream = stream;
  state = some (record { delivered_sequence = cursor; stream_id_offset = some offset });
  raised = false;
}
committed offset state before (failed stream) = record {
  stream = stream;
  state = state;
  raised = true;
}
committed offset state before out_of_fuel = record { stream = before; state = state; raised = true }

-- The cursor and the offset that a pass starts from: INSERT OR IGNORE, and the bootstrap.
unfoldable pub start_of :
    {S : Type 0} → Redis S → Codec → List EventRecord → Option DeliveryState → S → Option (ℕ × ℕ)
start_of redis codec events none stream = bootstrap redis codec events 0 stream
start_of redis codec events (some state) stream = elim state.stream_id_offset [
  | none ↦ bootstrap redis codec events state.delivered_sequence stream
  | some offset ↦ some (state.delivered_sequence, offset)
]

-- The pass from its start; a bootstrap that raises is rolled back before anything is sent.
unfoldable pub deliver_from :
    {S : Type 0}
    → Redis S
    → Codec
    → List EventRecord
    → (target_sequence : ℕ) → Option DeliveryState
    → S
    → Option (ℕ × ℕ)
    → Delivery S
deliver_from redis codec events target_sequence state stream none = record {
  stream = stream;
  state = state;
  raised = true;
}
deliver_from redis codec events target_sequence state stream (some (cursor, offset)) =
    committed offset state stream
      (deliver_loop (suc target_sequence) redis codec events target_sequence offset cursor stream)

unfoldable pub deliver_through :
    {S : Type 0}
    → Redis S
    → Codec
    → List EventRecord
    → (target_sequence : ℕ) → Option DeliveryState
    → S
    → Delivery S
unfolding deliver_from
deliver_through redis codec events target_sequence state stream =
    deliver_from redis codec events target_sequence state stream
      (start_of redis codec events state stream)
