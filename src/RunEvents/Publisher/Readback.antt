-- ===== src/RunEvents/Publisher/Readback.antt =====
-- An event that was emitted is one that the reader of its run takes.
use goblin_king.Base.{
  ℕ, ◌+◌, String, ◌==◌, eq_iff, ◌≡◌, refl, ap, ◌∙◌, ◌≤◌, ◌<◌, Bool, true, false, Option, none, some,
  leb, ltb, or_else, Result, ok, raise, ◌>>=◌, arith, if◌then◌else◌,
}
use goblin_king.Base.Int.{ℤ, pos, negsuc}
use goblin_king.Contracts.{Fields, end}
use goblin_king.RunEvents.{
  RunEventEnvelope, RunEventError, RunEventCodec, StreamEntry, RedisText, payload_exceeds,
  read_entry, checked_event, raw_event, payload_size, as_text, or_unicode_error,
  default_run_event_max_payload_bytes,
}
use goblin_king.RunEvents.Publisher.{
  RunEventPublisher, RunEventRedis, envelope, executed, append_event, append_json, numbered,
  admitted, sized_event, dumped_event, is_supported, emit_run_event,
}

module _ {B W : Type 0} (codec : RunEventCodec B) (redis : RunEventRedis W)
    (publisher : RunEventPublisher) where
  abbrev IsBuilt : (payload : Fields) → RunEventEnvelope → Type 0
  IsBuilt payload event =
      (event.run_id ≡ publisher.run_id) × (event.payload ≡ payload) × (1 ≤ event.sequence)

  envelope-IsBuilt :
      (event_type : String) (payload : Fields) (created_at : ℕ) (number : ℤ)
      (event : RunEventEnvelope)
      → envelope codec redis publisher event_type payload created_at number ≡ some event
      → IsBuilt payload event
  unfolding envelope
  envelope-IsBuilt event_type payload created_at (negsuc n) event h = ground arith
  envelope-IsBuilt event_type payload created_at (pos n) event h = ground arith

  executed-event :
      (built event : RunEventEnvelope) (r : W × Option (Unit {0}))
      → (executed codec redis publisher built r).1 ≡ ok event
      → built ≡ event
  executed-event built event (w, none) h = ground arith
  executed-event built event (w, some _) h = ground arith

  append_json-event :
      (built event : RunEventEnvelope) (json : Option String) (w : W)
      → (append_json codec redis publisher built json w).1 ≡ ok event
      → built ≡ event
  unfolding append_json
  append_json-event built event none w h = ground arith
  append_json-event built event (some json) w h = executed-event built event _ h

  append_event-event :
      (built : Option RunEventEnvelope) (event : RunEventEnvelope) (w : W)
      → (append_event codec redis publisher built w).1 ≡ ok event
      → built ≡ some event
  unfolding append_event
  append_event-event none event w h = ground arith
  append_event-event (some built) event w h =
      ap some (append_json-event built event (codec.model_dump_json built) w h)

  numbered-IsBuilt :
      (event_type : String) (payload : Fields) (created_at : ℕ) (r : W × Option ℤ)
      (event : RunEventEnvelope)
      → (numbered codec redis publisher event_type payload created_at r).1 ≡ ok event
      → IsBuilt payload event
  unfolding numbered
  numbered-IsBuilt event_type payload created_at (w, none) event h = ground arith
  numbered-IsBuilt event_type payload created_at (w, some number) event h =
      envelope-IsBuilt event_type payload created_at number event (append_event-event _ event w h)

  admitted-IsBuilt :
      (event_type : String) (payload : Fields) (created_at : ℕ) (r : W × Option Bool)
      (event : RunEventEnvelope)
      → (admitted codec redis publisher event_type payload created_at r).1 ≡ ok event
      → IsBuilt payload event
  unfolding admitted
  admitted-IsBuilt event_type payload created_at (w, none) event h = ground arith
  admitted-IsBuilt event_type payload created_at (w, some false) event h = ground arith
  admitted-IsBuilt event_type payload created_at (w, some true) event h =
      numbered-IsBuilt event_type payload created_at (redis.incr publisher.sequence_key w) event h

  within_bound :
      (large : Bool) (error : RunEventError) (w : W) (r : W × Result RunEventError RunEventEnvelope)
      (event : RunEventEnvelope)
      → (if large then (w, raise error) else r).1 ≡ ok event
      → (large ≡ false) × (r.1 ≡ ok event)
  within_bound true error w r event h = ground arith
  within_bound false error w r event h = (refl, h)

  -- The event has the payload, in a text of a size within the publisher's bound.
  abbrev pub IsEmitted : (payload : Fields) → RunEventEnvelope → Type 0
  IsEmitted payload event =
      IsBuilt payload event
      × ((size : ℕ) × (payload_size codec payload ≡ ok size) × (size ≤ publisher.max_payload_bytes))

  sized_event-IsBuilt :
      (event_type : String) (payload : Fields) (created_at : ℕ) (bound : Option ℕ) (w : W)
      (event : RunEventEnvelope)
      → (sized_event codec redis publisher event_type payload created_at bound w).1 ≡ ok event
      → IsBuilt payload event
        × ((size : ℕ) × (bound ≡ some size) × (size ≤ publisher.max_payload_bytes))
  unfolding sized_event
  sized_event-IsBuilt event_type payload created_at none w event h = ground arith
  sized_event-IsBuilt event_type payload created_at (some size) w event h =
      let next = redis.set_nx publisher.rate_key publisher.min_interval_ms w in
      let (small, later) =
        within_bound (ltb publisher.max_payload_bytes size)
          (payload_exceeds publisher.max_payload_bytes size) w
          (admitted codec redis publisher event_type payload created_at next) event h in
      (admitted-IsBuilt event_type payload created_at next event later, (size, refl, ground arith))

  dumped_event-IsEmitted :
      (event_type : String) (payload : Fields) (created_at : ℕ) (dumped : Option String) (w : W)
      (event : RunEventEnvelope)
      → codec.dumps payload ≡ dumped
      → (dumped_event codec redis publisher event_type payload created_at dumped w).1 ≡ ok event
      → IsEmitted payload event
  unfolding dumped_event payload_size
  dumped_event-IsEmitted event_type payload created_at none w event e h = ground arith
  dumped_event-IsEmitted event_type payload created_at (some json) w event e h =
      let (built, (size, sized, small)) =
        sized_event-IsBuilt event_type payload created_at (codec.utf8_size json) w event h in
      let size_of : payload_size codec payload ≡ ok size =
        ap (λ d. or_unicode_error d >>= λ j. or_unicode_error (codec.utf8_size j)) e
        ∙ ap or_unicode_error sized in
      (built, (size, size_of, small))

  supported-event :
      (supported : Bool) (r : W × Result RunEventError RunEventEnvelope) (error : RunEventError)
      (w : W) (event : RunEventEnvelope)
      → (if supported then r else (w, raise error)).1 ≡ ok event
      → r.1 ≡ ok event
  supported-event true r error w event h = h
  supported-event false r error w event h = ground arith

  pub emit_run_event-IsEmitted :
      (event_type : String) (payload : Option Fields) (created_at : Option ℕ) (utc_now : ℕ) (w : W)
      (event : RunEventEnvelope)
      → (emit_run_event codec redis publisher event_type payload created_at utc_now w).1 ≡ ok event
      → IsEmitted (or_else payload end) event
  unfolding emit_run_event
  emit_run_event-IsEmitted event_type payload created_at utc_now w event h =
      dumped_event-IsEmitted event_type (or_else payload end) (or_else created_at utc_now) _ w event
        refl (supported-event (is_supported event_type) _ _ w event h)

  -- How a client shows an entry of the stream: its id, and the text that was added.
  abbrev pub Shows : StreamEntry B → (stream_id json : String) → Type 0
  Shows entry stream_id json =
      (raw : RedisText B) × (raw_event codec entry ≡ some raw)
      × (as_text codec raw ≡ ok json)
      × (as_text codec entry.stream_id ≡ ok stream_id)

  -- The text of an event's JSON is read as the event, and has at most 1024 bytes more than the bound
  -- on a payload.
  abbrev pub IsReadBack : RunEventEnvelope → (json : String) → Type 0
  IsReadBack event json =
      (codec.model_validate_json json ≡ some event)
      × ((size : ℕ) × (codec.utf8_size json ≡ some size)
          × (size ≤ default_run_event_max_payload_bytes + 1024))

  -- An event with the publisher's run and payload bound is what the reader makes of its entry.
  pub IsEmitted-read_entry :
      (payload : Fields) (event : RunEventEnvelope) (entry : StreamEntry B)
      (stream_id json : String) (after_sequence : ℕ)
      → publisher.max_payload_bytes ≤ default_run_event_max_payload_bytes
      → IsEmitted payload event
      → Shows entry stream_id json
      → IsReadBack event json
      → after_sequence < event.sequence
      → read_entry codec publisher.run_id after_sequence entry ≡ ok (some (stream_id, event))
  unfolding read_entry checked_event
  IsEmitted-read_entry payload event entry stream_id json after_sequence bounded emitted shown back
        later =
      let ((own, same, _), (payload_bytes, dumped, small)) = emitted in
      let (raw, raised, texted, id) = shown in
      let (valid, (size, sized, fits)) = back in
      let it : payload_size codec event.payload ≡ ok payload_bytes =
        ap (payload_size codec) same ∙ dumped in
      let run : (event.run_id == publisher.run_id) ≡ true =
        ground (arith, eq_iff event.run_id publisher.run_id) in
      let fitting : ltb (default_run_event_max_payload_bytes + 1024) size ≡ false = ground arith in
      let below : ltb default_run_event_max_payload_bytes payload_bytes ≡ false = ground arith in
      let after : leb event.sequence after_sequence ≡ false = ground arith in
      rw (read_entry, raised, texted, sized, fitting, valid, it, below, run, after, id) refl
