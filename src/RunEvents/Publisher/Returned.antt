-- ===== src/RunEvents/Publisher/Returned.antt =====
-- What an emission returns: which exceptions leave the best-effort one, and that an event that was
-- emitted is one that the reader takes.
use goblin_king.Base.{
  ℕ, String, ◌≡◌, refl, ap, ◌∙◌, ◌↔◌, Bool, true, false, Option, none, some, ltb, or_else, Result,
  ok, raise, arith, Bool-cases, inl, inr, if◌then◌else◌,
}
use goblin_king.Base.Int.{ℤ}
use goblin_king.Contracts.{Fields, end}
use goblin_king.RunEvents.{
  RunEventEnvelope, RunEventError, RunEventCodec, unsupported_type, unicode_error,
}
use goblin_king.RunEvents.Publisher.{
  RunEventPublisher, RunEventRedis, envelope, executed, append_event, append_json, dumped_event,
  is_supported, numbered, admitted, sized_event, emit_run_event, best_effort, try_emit_run_event,
  commands,
}

module _ {B W : Type 0} (codec : RunEventCodec B) (redis : RunEventRedis W)
    (publisher : RunEventPublisher) where
  -- The attempt returns: an event, or nothing.
  abbrev Returns : W × Result RunEventError RunEventEnvelope → Type 0
  Returns r =
      (answer : Option RunEventEnvelope) × (best_effort codec redis publisher r.1 ≡ ok answer)

  executed-Returns :
      (event : RunEventEnvelope) (r : W × Option (Unit {0}))
      → Returns (executed codec redis publisher event r)
  executed-Returns event (w, none) = (none, refl)
  executed-Returns event (w, some _) = (some event, refl)

  append_json-Returns :
      (event : RunEventEnvelope) (json : Option String) (w : W)
      → Returns (append_json codec redis publisher event json w)
  unfolding append_json
  append_json-Returns event none w = (none, refl)
  append_json-Returns event (some json) w =
      executed-Returns event (redis.execute (commands codec redis publisher json) w)

  append_event-Returns :
      (event : Option RunEventEnvelope) (w : W)
      → Returns (append_event codec redis publisher event w)
  unfolding append_event
  append_event-Returns none w = (none, refl)
  append_event-Returns (some event) w = append_json-Returns event (codec.model_dump_json event) w

  numbered-Returns :
      (event_type : String) (payload : Fields) (created_at : ℕ) (r : W × Option ℤ)
      → Returns (numbered codec redis publisher event_type payload created_at r)
  unfolding numbered
  numbered-Returns event_type payload created_at (w, none) = (none, refl)
  numbered-Returns event_type payload created_at (w, some sequence) =
      append_event-Returns (envelope codec redis publisher event_type payload created_at sequence) w

  admitted-Returns :
      (event_type : String) (payload : Fields) (created_at : ℕ) (r : W × Option Bool)
      → Returns (admitted codec redis publisher event_type payload created_at r)
  unfolding admitted
  admitted-Returns event_type payload created_at (w, none) = (none, refl)
  admitted-Returns event_type payload created_at (w, some false) = (none, refl)
  admitted-Returns event_type payload created_at (w, some true) =
      numbered-Returns event_type payload created_at (redis.incr publisher.sequence_key w)

  sized_event-Returns :
      (event_type : String) (payload : Fields) (created_at payload_bytes : ℕ) (w : W)
      → Returns
          (sized_event codec redis publisher event_type payload created_at (some payload_bytes) w)
  unfolding sized_event
  sized_event-Returns event_type payload created_at payload_bytes w =
      elim (Bool-cases (ltb publisher.max_payload_bytes payload_bytes)) [
        | inl e ↦ (none, rw e refl)
        | inr e ↦
            let (answer, same) =
              admitted-Returns event_type payload created_at
                (redis.set_nx publisher.rate_key publisher.min_interval_ms w) in
            (answer, rw e same)
      ]

  -- A best-effort attempt raises.
  abbrev Raises : W × Result RunEventError RunEventEnvelope → Type 0
  Raises r = (error : RunEventError) × (best_effort codec redis publisher r.1 ≡ raise error)

  sized_event-Raises :
      (event_type : String) (payload : Fields) (created_at : ℕ) (size : Option ℕ) (w : W)
      → Raises (sized_event codec redis publisher event_type payload created_at size w)
        ↔ (size ≡ none)
  unfolding sized_event
  sized_event-Raises event_type payload created_at none w =
      ((λ raised. refl), (λ e. (unicode_error, refl)))
  sized_event-Raises event_type payload created_at (some n) w = (
    (λ raised.
        let (answer, same) = sized_event-Returns event_type payload created_at n w in ground arith),
    (λ e. ground arith),
  )

  dumped_event-Raises :
      (event_type : String) (payload : Fields) (created_at : ℕ) (dumped : Option String) (w : W)
      → Raises (dumped_event codec redis publisher event_type payload created_at dumped w)
        ↔ ((json : String) × (dumped ≡ some json) × (codec.utf8_size json ≡ none))
  unfolding dumped_event
  dumped_event-Raises event_type payload created_at none w =
      ((λ raised. ground arith), (λ e. ground arith))
  dumped_event-Raises event_type payload created_at (some json) w =
      let (there, back) =
        sized_event-Raises event_type payload created_at (codec.utf8_size json) w in
      (
        (λ raised. (json, refl, there raised)),
        (λ e. back (ap codec.utf8_size (ap (λ o. or_else o json) e.1) ∙ e.2)),
      )

  supported-Raises :
      (event_type : String) (w : W) (supported : Bool)
      (r : W × Result RunEventError RunEventEnvelope)
      → Raises (if supported then r else (w, raise (unsupported_type event_type)))
        ↔ ((supported ≡ true) × Raises r)
  supported-Raises event_type w true r = ((λ raised. (refl, raised)), (λ h. h.1))
  supported-Raises event_type w false r = ((λ raised. ground arith), (λ h. ground arith))

  -- The payload is dumped to a text that has no UTF-8, such as one with a lone surrogate.
  abbrev pub IsUnencodable : Fields → Type 0
  IsUnencodable payload =
      (json : String) × (codec.dumps payload ≡ some json) × (codec.utf8_size json ≡ none)

  module _ (event_type : String) (payload : Option Fields) (utc_now : ℕ) (w : W) where
    -- A best-effort emission raises exactly if its type is one of the four and its payload is
    -- dumped to a text that has no UTF-8; otherwise it returns.
    pub try_emit_run_event-raises :
        ((error : RunEventError) × ((try_emit_run_event codec redis publisher event_type payload
              utc_now w).1
            ≡ raise error))
        ↔ ((is_supported event_type ≡ true) × IsUnencodable (or_else payload end))
    unfolding try_emit_run_event emit_run_event
    try_emit_run_event-raises =
        let (there, back) =
          dumped_event-Raises event_type (or_else payload end) utc_now
            (codec.dumps (or_else payload end)) w in
        let (passed, pass) = supported-Raises event_type w (is_supported event_type) (
          dumped_event codec redis publisher event_type (or_else payload end) utc_now
            (codec.dumps (or_else payload end)) w) in
        (
          (λ raised. let (supported, later) = passed raised in (supported, there later)),
          (λ h. pass (h.0, back h.1)),
        )
