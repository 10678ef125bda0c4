-- ===== src/Tests/RunEvents.antt =====
-- A run's events through a small server, which counts, and a codec that knows one event.
use goblin_king.Base.{
  ap, subst, ◌++◌, or_else, ℕ, suc, String, ◌==◌, ◌≡◌, ◌↔◌, refl, arith, Option, none, some, List,
  [], ◌∷◌, true, All, raise, ok, if◌then◌else◌, length, ◌≤◌,
}
use goblin_king.Base.Int.{pos}
use goblin_king.Contracts.{Fields, end, field, null, is_empty}
use goblin_king.RunEvents.{
  RunEventEnvelope, RunEventCodec, RunEventError, StreamEntry, text, unicode_error, read_entry,
  read_run_event_entries, payload_size,
}
use goblin_king.RunEvents.Ascending.{IsAscending, AccountsFor, Item}
use goblin_king.RunEvents.Decoded.{IsWanted}
use goblin_king.RunEvents.Page.{read_run_event_entries-IsPage, read_run_event_entries_complete}
use goblin_king.RunEvents.Publisher.Returned.{try_emit_run_event-raises, IsUnencodable}
use goblin_king.RunEvents.Publisher.Readback.{IsReadBack}
use goblin_king.RunEvents.Publisher.Sent.{IsServer, Executed, keep_last}
use goblin_king.RunEvents.Publisher.Published.{IsPublished, emit_run_event-IsPublished}
use goblin_king.RunEvents.Publisher.{
  Command, xadd, expire, commands, new_publisher, dumped_event, emit_run_event, RunEventPublisher,
  RunEventRedis, try_emit_run_event, is_supported,
}
use goblin_king.RunEvents.Keys.{run_event_stream_key}
use goblin_king.RunEvents.{raw_event}

abbrev first_event : RunEventEnvelope
first_event = record {
  sequence = 1;
  created_at = 7;
  event_type = "stdout";
  run_id = "r1";
  payload = end;
}

abbrev second_event : RunEventEnvelope
second_event = record first_event { sequence = 2 }

-- Only an empty payload is dumped to a text that UTF-8 can encode.
abbrev codec : RunEventCodec (Unit {0})
codec = record {
  utf8_size = λ json. if json == "surrogate" then none else some 10;
  decode = λ raw. none;
  is_present = λ raw. true;
  dumps = λ payload. some (if is_empty payload then "{}" else "surrogate");
  model_dump_json = λ event. some "first";
  model_validate_json = λ json.
      if json == "first"
      then some first_event
      else if json == "second"
      then some second_event
      else none;
}

abbrev server : RunEventRedis ℕ
server = record {
  set_nx = λ key px w. (w, some true);
  incr = λ key w. (suc w, some (pos (suc w)));
  execute = λ commands w. (w, some tt);
}

abbrev publisher : RunEventPublisher
publisher = record {
  run_id = "r1";
  stream = "s";
  sequence_key = "n";
  rate_key = "k";
  max_events = 256;
  max_payload_bytes = 4096;
  min_interval_ms = 50;
  ttl_seconds = 3600;
}

abbrev entry : (stream_id json : String) → StreamEntry (Unit {0})
entry stream_id json = record {
  stream_id = text stream_id;
  bytes_event = none;
  text_event = some (text json);
}

-- Out of order, one entry twice and one that is no event.
abbrev stream : List (StreamEntry (Unit {0}))
stream = entry "2-0" "second" ∷ entry "1-0" "first" ∷ entry "3-0" "other" ∷ entry "4-0" "first" ∷ []

abbrev page : List Item
page = ("1-0", first_event) ∷ ("2-0", second_event) ∷ []

page_run : read_run_event_entries codec (λ key count. some stream) "r1" (pos 0) (pos 100) ≡ ok page
unfolding read_run_event_entries goblin_king.RunEvents.page_of goblin_king.Table.order_by
page_run = refl

read_run_event_entries-IsPage_example :
    IsAscending 0 page × All (IsWanted codec "r1" 0) page × (length page ≤ 100)
read_run_event_entries-IsPage_example =
    read_run_event_entries-IsPage codec "r1" 0 (λ key count. some stream) 100 page page_run

read_run_event_entries_complete_example :
    All
      (λ found.
        (item : Item)
        → read_entry codec "r1" 0 found ≡ ok (some item)
        → AccountsFor 100 page item.1.sequence)
      stream
read_run_event_entries_complete_example =
    read_run_event_entries_complete codec "r1" 0 (λ key count. some stream) 100 page stream refl
      page_run

abbrev surrogate_payload : Option Fields
surrogate_payload = some (field "text" null end)

try_emit_run_event-raises_example :
    ((error : RunEventError) × ((try_emit_run_event codec server publisher "stdout"
          surrogate_payload 7 0).1
        ≡ raise error))
    ↔ ((is_supported "stdout" ≡ true)
        × IsUnencodable codec server publisher (field "text" null end))
try_emit_run_event-raises_example =
    try_emit_run_event-raises codec server publisher "stdout" surrogate_payload 7 0

-- A server of many streams, whose client shows texts.
abbrev Streams : Type 0
Streams = String → List (StreamEntry (Unit {0}))

abbrev appended : (name event : String) → ℕ → Streams → Streams
appended name event maxlen streams key =
    if name == key then keep_last maxlen (streams key ++ entry "1-0" event ∷ []) else streams key

abbrev run_commands : List Command → Streams → Streams
run_commands [] streams = streams
run_commands (expire _ _ ∷ rest) streams = run_commands rest streams
run_commands (xadd name event maxlen ∷ rest) streams =
    run_commands rest (appended name event maxlen streams)

abbrev stream_server : RunEventRedis (Streams × ℕ)
stream_server = record {
  set_nx = λ key px w. (w, some true);
  incr = λ key w. ((w.0, suc w.1), some (pos (suc w.1)));
  execute = λ sent w. ((run_commands sent w.0, w.1), some tt);
}

abbrev stream_publisher : RunEventPublisher
stream_publisher = record publisher { stream = "goblin-king:run-events:r1" }

built_run :
    new_publisher "r1" (run_event_stream_key "r1") "n" "k" (pos 256) (pos 4096) (pos 50) (pos 3600)
    ≡ ok stream_publisher
unfolding new_publisher run_event_stream_key
built_run = refl

abbrev entries_of : String → Streams × ℕ → List (StreamEntry (Unit {0}))
entries_of key w = w.0 key

run_commands-Executed :
    (sent : List Command) (streams : Streams) (key : String)
    → Executed codec stream_server stream_publisher key sent
        (streams key)
        (run_commands sent streams key)
unfolding raw_event
run_commands-Executed [] streams key = refl
run_commands-Executed (expire _ _ ∷ rest) streams key = run_commands-Executed rest streams key
run_commands-Executed (xadd name event maxlen ∷ rest) streams key = (
  entry "1-0" event,
  "1-0",
  (text event, refl, refl, refl),
  run_commands-Executed rest (appended name event maxlen streams) key,
)

stream_server-IsServer : IsServer codec stream_server stream_publisher entries_of
stream_server-IsServer = record {
  executes = λ sent w w' e key.
      subst (λ after. Executed codec stream_server stream_publisher key sent (w.0 key) after)
        (ap (λ r. r.0.0 key) e) (run_commands-Executed sent w.0 key);
  set_apart = λ name px w key. refl;
  incr_apart = λ name w key. refl;
}

-- One entry is there that is no event.
abbrev before_emit : Streams × ℕ
before_emit = ((λ key. entry "0-1" "other" ∷ []), 0)

abbrev after_emit : Streams × ℕ
after_emit = (run_commands (commands codec stream_server stream_publisher "first") before_emit.0, 1)

emitted_run :
    emit_run_event codec stream_server stream_publisher "stdout" none none 7 before_emit
    ≡ (after_emit, ok first_event)
unfolding emit_run_event dumped_event
emitted_run = refl

emit_run_event-IsPublished_example :
    IsPublished codec stream_server entries_of "r1" 0 10 first_event after_emit
unfolding read_entry raw_event
emit_run_event-IsPublished_example =
    emit_run_event-IsPublished codec stream_server entries_of stream_publisher
      stream_server-IsServer "r1" "n" "k" (pos 256) (pos 4096) (pos 50) (pos 3600) "stdout" none
      none 7 first_event before_emit after_emit 0 10 built_run emitted_run
      (λ json e.
        subst (λ j. IsReadBack codec stream_server stream_publisher first_event j)
          (ap (λ o. or_else o json) e) (refl, (10, refl, omega arith)))
      ((none, refl), tt) (omega arith) (omega arith) (omega arith)
