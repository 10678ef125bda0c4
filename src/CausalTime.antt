-- ===== src/CausalTime.antt =====
-- causal_time.py: timestamps that never move backward in a process, and timestamps that follow
-- their causes. Instants are microseconds since Python's `datetime.min` in UTC.
pub mod Order
use goblin_king.Base.{
  ℕ, suc, ◌+◌, Option, none, some, List, [], ◌∷◌, Bool, leb, ltb, if◌then◌else◌, max,
}
use goblin_king.Base.Int.{ℤ, pos}

-- A naive datetime holds the microseconds that it shows; an aware one the instant that it
-- names, beside its offset from UTC.
pub data DateTime : Type 0 where
  naive : (shown : ℕ) → DateTime
  aware : (instant : ℕ) (offset : ℤ) → DateTime

-- an instant that is already in UTC
abbrev pub utc : ℕ → DateTime
utc t = aware t (pos 0)

unfoldable pub ensure_utc : DateTime → ℕ
ensure_utc (naive shown) = shown
ensure_utc (aware instant _) = instant

-- MINIMUM_CAUSAL_STEP, one microsecond
abbrev pub minimum_causal_step : ℕ
minimum_causal_step = 1

-- MonotonicUtcClock: the last value that it returned.
pub record MonotonicUtcClock : Type 0 where
  pub last : Option ℕ

-- `now` with the wall clock's reading; the lock makes the call one step.
unfoldable pub now : DateTime → MonotonicUtcClock → ℕ × MonotonicUtcClock
unfolding ensure_utc
now wall clock =
    let candidate = ensure_utc wall in
    let moved : ℕ = elim clock.last [
      | none ↦ candidate
      | some last ↦ if leb candidate last then last + minimum_causal_step else candidate
    ] in
    (moved, record { last = some moved })

-- The predecessors that are given, normalised.
unfoldable pub normalized : List (Option DateTime) → List ℕ
unfolding ensure_utc
normalized [] = []
normalized (none ∷ ps) = normalized ps
normalized (some p ∷ ps) = ensure_utc p ∷ normalized ps

unfoldable pub latest : ℕ → List ℕ → ℕ
latest m [] = m
latest m (p ∷ ps) = latest (max m p) ps

-- The last four lines of `causally_after`.
unfoldable pub lift_above : List ℕ → ℕ → ℕ
unfolding latest
lift_above [] current = current
lift_above (p ∷ ps) current =
    let floor = latest p ps in if ltb floor current then current else floor + minimum_causal_step

-- `causally_after(*predecessors, candidate=candidate)`
unfoldable pub causally_after : List (Option DateTime) → DateTime → ℕ
unfolding normalized ensure_utc lift_above
causally_after predecessors candidate = lift_above (normalized predecessors) (ensure_utc candidate)

-- `causally_after(*predecessors)`: the candidate is the process clock's next value.
unfoldable pub causally_after_now :
    List (Option DateTime) → DateTime → MonotonicUtcClock → ℕ × MonotonicUtcClock
unfolding now normalized lift_above
causally_after_now predecessors wall clock =
    let (current, clock') = now wall clock in (lift_above (normalized predecessors) current, clock')
