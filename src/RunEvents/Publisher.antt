-- ===== src/RunEvents/Publisher.antt =====
-- The publisher of a run's events (run_events.py): RunEventPublisher. The Redis server and the JSON
-- codec are parameters; `from_environment` is not modelled.
pub mod Returned
pub mod Readback
pub mod Sent
pub mod Configured
pub mod Published
use goblin_king.Base.{
  ℕ, zero, suc, String, ◌==◌, Bool, true, false, ◌&&◌, Option, none, some, List, [], ◌∷◌, any, leb,
  ltb, or_else, Result, ok, raise, ◌>>=◌, if◌then◌else◌,
}
use goblin_king.Base.Int.{ℤ, pos, negsuc}
use goblin_king.Contracts.{Fields, end, field, num, str}
use goblin_king.RunEvents.{
  RunEventEnvelope, RunEventError, RunEventCodec, max_events_out_of_range,
  max_payload_bytes_out_of_range, min_interval_ms_out_of_range, ttl_seconds_out_of_range,
  unsupported_type, not_serializable, payload_exceeds, limited_to_one_every, percent_out_of_range,
  transport_unavailable, unicode_error, default_run_event_max_events,
  default_run_event_max_payload_bytes,
}

abbrev pub default_run_event_min_interval_ms : ℕ
default_run_event_min_interval_ms = 50

abbrev pub default_run_event_ttl_seconds : ℕ
default_run_event_ttl_seconds = 3600

abbrev pub run_event_types : List String
run_event_types = "progress" ∷ "stdout" ∷ "stderr" ∷ "message" ∷ []

abbrev pub is_supported : String → Bool
is_supported event_type = any (λ t. t == event_type) run_event_types

pub record RunEventPublisher : Type 0 where
  pub run_id : String
  pub stream : String
  pub sequence_key : String
  pub rate_key : String
  pub max_events : ℕ
  pub max_payload_bytes : ℕ
  pub min_interval_ms : ℕ
  pub ttl_seconds : ℕ

-- `low <= value <= high`, or the refusal
abbrev pub between : (low high : ℕ) → ℤ → RunEventError → Result RunEventError ℕ
between low high (pos n) error = if leb low n && leb n high then ok n else raise error
between low high (negsuc n) error = raise error

-- `__init__`
unfoldable pub new_publisher :
    (run_id stream sequence_key rate_key : String)
    → (max_events max_payload_bytes min_interval_ms ttl_seconds : ℤ)
    → Result RunEventError RunEventPublisher
new_publisher run_id stream sequence_key rate_key max_events max_payload_bytes min_interval_ms
      ttl_seconds =
    between 1 default_run_event_max_events max_events max_events_out_of_range >>= λ events.
    between 1 default_run_event_max_payload_bytes max_payload_bytes max_payload_bytes_out_of_range
    >>= λ bytes.
        between default_run_event_min_interval_ms 60000 min_interval_ms min_interval_ms_out_of_range
        >>= λ interval.
            between 1 default_run_event_ttl_seconds ttl_seconds ttl_seconds_out_of_range >>= λ ttl.
            ok (record {
              run_id = run_id;
              stream = stream;
              sequence_key = sequence_key;
              rate_key = rate_key;
              max_events = events;
              max_payload_bytes = bytes;
              min_interval_ms = interval;
              ttl_seconds = ttl;
            })

pub data Command : Type 0 where
  xadd : (stream event : String) (maxlen : ℕ) → Command
  expire : (key : String) (seconds : ℕ) → Command

-- The calls of a Redis server in a state of type W; `none` is an error of the client.
pub record RunEventRedis (W : Type 0) : Type 0 where
  -- `set(key, "1", nx=True, px=px)`: whether the key was set
  pub set_nx : (key : String) (px : ℕ) → W → W × Option Bool
  pub incr : (key : String) → W → W × Option ℤ
  -- a pipeline in one transaction
  pub execute : List Command → W → W × Option (Unit {0})

module _ {B W : Type 0} (codec : RunEventCodec B) (redis : RunEventRedis W)
    (publisher : RunEventPublisher) where
  -- The envelope that pydantic accepts: a sequence from 1 on, and a run id that is not empty.
  unfoldable pub envelope :
      (event_type : String) (payload : Fields) (created_at : ℕ) → ℤ → Option RunEventEnvelope
  envelope event_type payload created_at (negsuc _) = none
  envelope event_type payload created_at (pos sequence) =
      if leb 1 sequence
      then if publisher.run_id == ""
        then none
        else some (record {
          sequence = sequence;
          created_at = created_at;
          event_type = event_type;
          run_id = publisher.run_id;
          payload = payload;
        })
      else none

  abbrev pub commands : (event : String) → List Command
  commands event =
      xadd publisher.stream event publisher.max_events
      ∷ expire publisher.stream publisher.ttl_seconds
      ∷ expire publisher.sequence_key publisher.ttl_seconds
      ∷ []

  abbrev pub executed :
      RunEventEnvelope → W × Option (Unit {0}) → W × Result RunEventError RunEventEnvelope
  executed event (w, none) = (w, raise transport_unavailable)
  executed event (w, some _) = (w, ok event)

  unfoldable pub append_json :
      RunEventEnvelope → Option String → W → W × Result RunEventError RunEventEnvelope
  append_json event none w = (w, raise transport_unavailable)
  append_json event (some json) w = executed event (redis.execute (commands json) w)

  -- The appending of an event, if it could be built.
  unfoldable pub append_event :
      Option RunEventEnvelope → W → W × Result RunEventError RunEventEnvelope
  unfolding append_json
  append_event none w = (w, raise transport_unavailable)
  append_event (some event) w = append_json event (codec.model_dump_json event) w

  unfoldable pub numbered :
      (event_type : String) (payload : Fields) (created_at : ℕ)
      → W × Option ℤ
      → W × Result RunEventError RunEventEnvelope
  unfolding envelope append_event
  numbered event_type payload created_at (w, none) = (w, raise transport_unavailable)
  numbered event_type payload created_at (w, some sequence) =
      append_event (envelope event_type payload created_at sequence) w

  -- What the rate key answers.
  unfoldable pub admitted :
      (event_type : String) (payload : Fields) (created_at : ℕ)
      → W × Option Bool
      → W × Result RunEventError RunEventEnvelope
  unfolding numbered
  admitted event_type payload created_at (w, none) = (w, raise transport_unavailable)
  admitted event_type payload created_at (w, some false) =
      (w, raise (limited_to_one_every publisher.min_interval_ms))
  admitted event_type payload created_at (w, some true) =
      numbered event_type payload created_at (redis.incr publisher.sequence_key w)

  unfoldable pub sized_event :
      (event_type : String) (payload : Fields) (created_at : ℕ)
      → (payload_bytes : Option ℕ) → W
      → W × Result RunEventError RunEventEnvelope
  unfolding admitted
  sized_event event_type payload created_at none w = (w, raise unicode_error)
  sized_event event_type payload created_at (some payload_bytes) w =
      if ltb publisher.max_payload_bytes payload_bytes
      then (w, raise (payload_exceeds publisher.max_payload_bytes payload_bytes))
      else admitted event_type payload created_at
          (redis.set_nx publisher.rate_key publisher.min_interval_ms w)

  unfoldable pub dumped_event :
      (event_type : String) (payload : Fields) (created_at : ℕ) (payload_json : Option String)
      → W
      → W × Result RunEventError RunEventEnvelope
  unfolding sized_event
  dumped_event event_type payload created_at none w = (w, raise not_serializable)
  dumped_event event_type payload created_at (some json) w =
      sized_event event_type payload created_at (codec.utf8_size json) w

  -- `emit`
  unfoldable pub emit_run_event :
      (event_type : String) (payload : Option Fields) (created_at : Option ℕ) (utc_now : ℕ)
      → W
      → W × Result RunEventError RunEventEnvelope
  unfolding dumped_event
  emit_run_event event_type payload created_at utc_now w =
      let content = or_else payload end in
      if is_supported event_type
      then dumped_event event_type content (or_else created_at utc_now) (codec.dumps content) w
      else (w, raise (unsupported_type event_type))

  -- `except (RunEventError, RunEventTransportError): return None`
  abbrev pub best_effort :
      Result RunEventError RunEventEnvelope → Result RunEventError (Option RunEventEnvelope)
  best_effort (ok event) = ok (some event)
  best_effort (raise unicode_error) = raise unicode_error
  best_effort (raise _) = ok none

  -- `try_emit`
  unfoldable pub try_emit_run_event :
      (event_type : String) (payload : Option Fields) (utc_now : ℕ)
      → W
      → W × Result RunEventError (Option RunEventEnvelope)
  unfolding emit_run_event
  try_emit_run_event event_type payload utc_now w =
      let (after, result) = emit_run_event event_type payload none utc_now w in
      (after, best_effort result)

  abbrev pub progress_payload : (percent : ℕ) (message : Option String) → Fields
  progress_payload percent none = field "percent" (num (pos percent)) end
  progress_payload percent (some message) =
      field "percent" (num (pos percent)) (field "message" (str message) end)

  -- A percentage here is an integer.
  unfoldable pub progress :
      (percent : ℤ) (message : Option String) (utc_now : ℕ)
      → W
      → W × Result RunEventError RunEventEnvelope
  unfolding emit_run_event
  progress percent message utc_now w = elim (between 0 100 percent percent_out_of_range) [
    | raise error ↦ (w, raise error)
    | ok n ↦ emit_run_event "progress" (some (progress_payload n message)) none utc_now w
  ]

  -- `stdout` and `stderr`
  unfoldable pub stdout :
      (chunk : String) (utc_now : ℕ) → W → W × Result RunEventError RunEventEnvelope
  unfolding emit_run_event
  stdout chunk utc_now w =
      emit_run_event "stdout" (some (field "text" (str chunk) end)) none utc_now w

  unfoldable pub stderr :
      (chunk : String) (utc_now : ℕ) → W → W × Result RunEventError RunEventEnvelope
  unfolding emit_run_event
  stderr chunk utc_now w =
      emit_run_event "stderr" (some (field "text" (str chunk) end)) none utc_now w
