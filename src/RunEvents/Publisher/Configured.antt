-- ===== src/RunEvents/Publisher/Configured.antt =====
-- What a publisher that was built keeps to (`RunEventPublisher.__init__`).
use goblin_king.Base.{ℕ, String, ◌≡◌, ◌≤◌, ok, bind-ok, arith}
use goblin_king.Base.Int.{ℤ, pos, negsuc}
use goblin_king.RunEvents.{
  RunEventError, default_run_event_max_events, default_run_event_max_payload_bytes,
}
use goblin_king.RunEvents.Publisher.{RunEventPublisher, new_publisher, between}

between-bounds :
    (low high : ℕ) (value : ℤ) (error : RunEventError) (n : ℕ)
    → between low high value error ≡ ok n
    → (low ≤ n) × (n ≤ high)
between-bounds low high (negsuc m) error n h = absurd (ground arith)
between-bounds low high (pos m) error n h = ground arith

-- The stream's key, and the bounds that the reader relies on.
abbrev pub IsConfigured : (run_id stream : String) → RunEventPublisher → Type 0
IsConfigured run_id stream publisher =
    (publisher.run_id ≡ run_id)
    × (publisher.stream ≡ stream)
    × (1 ≤ publisher.max_events)
    × (publisher.max_events ≤ default_run_event_max_events)
    × (publisher.max_payload_bytes ≤ default_run_event_max_payload_bytes)

module _ (run_id stream sequence_key rate_key : String)
    (max_events max_payload_bytes min_interval_ms ttl_seconds : ℤ)
    (publisher : RunEventPublisher) where
  pub new_publisher-IsConfigured :
      new_publisher run_id stream sequence_key rate_key max_events max_payload_bytes min_interval_ms
          ttl_seconds
        ≡ ok publisher
      → IsConfigured run_id stream publisher
  unfolding new_publisher
  new_publisher-IsConfigured h =
      let (events, e, h1) = bind-ok (between _ _ max_events _) _ publisher h in
      let (size, s, h2) = bind-ok (between _ _ max_payload_bytes _) _ publisher h1 in
      let (interval, i, h3) = bind-ok (between _ _ min_interval_ms _) _ publisher h2 in
      let (ttl, t, h4) = bind-ok (between _ _ ttl_seconds _) _ publisher h3 in
      let (low, high) = between-bounds _ _ max_events _ events e in
      let (_, small) = between-bounds _ _ max_payload_bytes _ size s in
      (ground arith, ground arith, ground arith, ground arith, ground arith)
