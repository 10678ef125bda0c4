-- ===== src/RunEvents/Keys.antt =====
-- The Redis keys of a run's events (run_events.py).
use Prim.Native.String.{String, ◌++◌}

-- `f"goblin-king:run-events:{run_id}"`
unfoldable pub run_event_stream_key : (run_id : String) → String
run_event_stream_key run_id = "goblin-king:run-events:" ++ run_id

-- `f"goblin-king:run-events:{run_id}:sequence"`
unfoldable pub run_event_sequence_key : (run_id : String) → String
run_event_sequence_key run_id = "goblin-king:run-events:" ++ (run_id ++ ":sequence")

-- `f"goblin-king:run-events:{run_id}:rate"`
unfoldable pub run_event_rate_key : (run_id : String) → String
run_event_rate_key run_id = "goblin-king:run-events:" ++ (run_id ++ ":rate")
