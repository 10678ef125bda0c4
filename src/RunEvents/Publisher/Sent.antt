-- ===== src/RunEvents/Publisher/Sent.antt =====
-- What an emission sends: the one transaction that appends its event to the stream, and what a read
-- of the run right after it finds.
use goblin_king.Base.{
  ℕ, String, ◌==◌, eq_refl, ◌≡◌, refl, ap, ◌∙◌, Bool, true, false, Option, none, some, List, [],
  ◌∷◌, ◌++◌, leb, length, or_else, Result, ok, raise, arith, if◌then◌else◌,
}
use goblin_king.Base.Int.{ℤ}
use goblin_king.Contracts.{Fields, end}
use goblin_king.RunEvents.{RunEventEnvelope, RunEventError, RunEventCodec, StreamEntry}
use goblin_king.RunEvents.Publisher.{
  RunEventPublisher, RunEventRedis, Command, xadd, expire, commands, executed, append_event,
  append_json, numbered, admitted, sized_event, dumped_event, is_supported, emit_run_event,
}
use goblin_king.RunEvents.Publisher.Readback.{Shows}

-- The entries that a stream keeps under an exact MAXLEN.
abbrev pub keep_last : {A : Type 0} → ℕ → List A → List A
keep_last n [] = []
keep_last n (x ∷ xs) = if leb (length (x ∷ xs)) n then x ∷ xs else keep_last n xs

module _ {B W : Type 0} (codec : RunEventCodec B) (redis : RunEventRedis W)
    (publisher : RunEventPublisher) where
  -- What a transaction makes of the entries under a key: XADD appends an entry under an id that the
  -- server gives, and keeps the newest ones; EXPIRE is for later.
  abbrev pub Executed :
      (key : String) → List Command → (before after : List (StreamEntry B)) → Type 0
  Executed key [] before after = after ≡ before
  Executed key (expire _ _ ∷ rest) before after = Executed key rest before after
  Executed key (xadd stream event maxlen ∷ rest) before after =
      (entry : StreamEntry B) × (stream_id : String) × Shows codec redis publisher entry stream_id
        event
      × Executed key rest
          (if stream == key then keep_last maxlen (before ++ entry ∷ []) else before) after

  -- What publishing relies on of Redis: a transaction that returns was executed, and the commands on
  -- the two other keys leave the streams alone.
  pub record IsServer (entries : String → W → List (StreamEntry B)) : Type 0 where
    pub executes :
        (sent : List Command) (w w' : W)
        → redis.execute sent w ≡ (w', some tt)
        → (key : String) → Executed key sent (entries key w) (entries key w')
    pub set_apart :
        (name : String) (px : ℕ) (w : W) (key : String)
        → entries key (redis.set_nx name px w).0 ≡ entries key w
    pub incr_apart :
        (name : String) (w : W) (key : String) → entries key (redis.incr name w).0 ≡ entries key w

  -- From one state to the other, the event was sent in the publisher's transaction.
  abbrev pub IsSent : RunEventEnvelope → W → W → Type 0
  IsSent event w w' =
      (json : String) × (codec.model_dump_json event ≡ some json)
      × (redis.execute (commands codec redis publisher json) w ≡ (w', some tt))

  executed-IsSent :
      (built event : RunEventEnvelope) (json : String) (w w' : W) (r : W × Option (Unit {0}))
      → codec.model_dump_json built ≡ some json
      → redis.execute (commands codec redis publisher json) w ≡ r
      → executed codec redis publisher built r ≡ (w', ok event)
      → IsSent event w w'
  executed-IsSent built event json w w' (after, none) dumped ran h = absurd (ground arith)
  executed-IsSent built event json w w' (after, some tt) dumped ran h =
      (json, ground arith, ground arith)

  append_json-IsSent :
      (built event : RunEventEnvelope) (json : Option String) (w w' : W)
      → codec.model_dump_json built ≡ json
      → append_json codec redis publisher built json w ≡ (w', ok event)
      → IsSent event w w'
  unfolding append_json
  append_json-IsSent built event none w w' dumped h = absurd (ground arith)
  append_json-IsSent built event (some json) w w' dumped h =
      executed-IsSent built event json w w' _ dumped refl h

  append_event-IsSent :
      (built : Option RunEventEnvelope) (event : RunEventEnvelope) (w w' : W)
      → append_event codec redis publisher built w ≡ (w', ok event)
      → IsSent event w w'
  unfolding append_event
  append_event-IsSent none event w w' h = absurd (ground arith)
  append_event-IsSent (some built) event w w' h = append_json-IsSent built event _ w w' refl h

  -- The state in which an emission sends its transaction.
  abbrev pub prepared : W → W
  prepared w =
      (redis.incr publisher.sequence_key
        (redis.set_nx publisher.rate_key publisher.min_interval_ms w).0).0

  module _ (event_type : String) (payload : Fields) (created_at : ℕ) (event : RunEventEnvelope)
      (w' : W) where
    numbered-IsSent :
        (r : W × Option ℤ)
        → numbered codec redis publisher event_type payload created_at r ≡ (w', ok event)
        → IsSent event r.0 w'
    unfolding numbered
    numbered-IsSent (w, none) h = absurd (ground arith)
    numbered-IsSent (w, some number) h = append_event-IsSent _ event w w' h

    admitted-IsSent :
        (r : W × Option Bool)
        → admitted codec redis publisher event_type payload created_at r ≡ (w', ok event)
        → IsSent event (redis.incr publisher.sequence_key r.0).0 w'
    unfolding admitted
    admitted-IsSent (w, none) h = absurd (ground arith)
    admitted-IsSent (w, some false) h = absurd (ground arith)
    admitted-IsSent (w, some true) h = numbered-IsSent (redis.incr publisher.sequence_key w) h

    bounded-IsSent :
        (large : Bool) (error : RunEventError) (w : W)
        → (let r : W × Result RunEventError RunEventEnvelope =
              if large
              then (w, raise error)
              else admitted codec redis publisher event_type payload created_at
                  (redis.set_nx publisher.rate_key publisher.min_interval_ms w) in
            r)
          ≡ (w', ok event)
        → IsSent event (prepared w) w'
    bounded-IsSent true error w h = absurd (ground arith)
    bounded-IsSent false error w h = admitted-IsSent _ h

    sized_event-IsSent :
        (size : Option ℕ) (w : W)
        → sized_event codec redis publisher event_type payload created_at size w ≡ (w', ok event)
        → IsSent event (prepared w) w'
    unfolding sized_event
    sized_event-IsSent none w h = absurd (ground arith)
    sized_event-IsSent (some size) w h = bounded-IsSent _ _ w h

    dumped_event-IsSent :
        (dumped : Option String) (w : W)
        → dumped_event codec redis publisher event_type payload created_at dumped w ≡ (w', ok event)
        → IsSent event (prepared w) w'
    unfolding dumped_event
    dumped_event-IsSent none w h = absurd (ground arith)
    dumped_event-IsSent (some json) w h = sized_event-IsSent (codec.utf8_size json) w h

  supported-IsSent :
      (supported : Bool) (event : RunEventEnvelope) (error : RunEventError) (w w' before : W)
      (r : W × Result RunEventError RunEventEnvelope)
      → (r ≡ (w', ok event) → IsSent event before w')
      → (if supported then r else (w, raise error)) ≡ (w', ok event)
      → IsSent event before w'
  supported-IsSent true event error w w' before r sent h = sent h
  supported-IsSent false event error w w' before r sent h = absurd (ground arith)

  emit_run_event-IsSent :
      (event_type : String) (payload : Option Fields) (created_at : Option ℕ) (utc_now : ℕ)
      (event : RunEventEnvelope) (w w' : W)
      → emit_run_event codec redis publisher event_type payload created_at utc_now w
        ≡ (w', ok event)
      → IsSent event (prepared w) w'
  unfolding emit_run_event
  emit_run_event-IsSent event_type payload created_at utc_now event w w' h =
      supported-IsSent (is_supported event_type) event _ w w' (prepared w) _
        (dumped_event-IsSent event_type (or_else payload end) (or_else created_at utc_now) event w'
          _ w)
        h

  -- After an emission, the publisher's stream has the event's entry behind the entries it had, of
  -- which it keeps the newest.
  pub emit_run_event-entries :
      (entries : String → W → List (StreamEntry B))
      → IsServer entries
      → (event_type : String) (payload : Option Fields) (created_at : Option ℕ) (utc_now : ℕ)
        (event : RunEventEnvelope) (w w' : W)
      → emit_run_event codec redis publisher event_type payload created_at utc_now w
        ≡ (w', ok event)
      → (json : String) × (codec.model_dump_json event ≡ some json)
        × (entry : StreamEntry B) × (stream_id : String) × Shows codec redis publisher entry
            stream_id json
        × (entries publisher.stream w'
            ≡ keep_last publisher.max_events (entries publisher.stream w ++ entry ∷ []))
  emit_run_event-entries entries server event_type payload created_at utc_now event w w' h =
      let (json, dumped, ran) =
        emit_run_event-IsSent event_type payload created_at utc_now event w w' h in
      let (entry, stream_id, shown, after) =
        server.executes (commands codec redis publisher json) (prepared w) w' ran
          publisher.stream in
      let apart : entries publisher.stream (prepared w) ≡ entries publisher.stream w =
        server.incr_apart publisher.sequence_key _ publisher.stream
        ∙ server.set_apart publisher.rate_key publisher.min_interval_ms w publisher.stream in
      (
        json,
        dumped,
        entry,
        stream_id,
        shown,
        after
            ∙ ground (arith, eq_refl publisher.stream)
            ∙ ap (λ l. keep_last publisher.max_events (l ++ entry ∷ [])) apart,
      )
