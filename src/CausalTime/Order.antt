-- ===== src/CausalTime/Order.antt =====
-- The clock is strictly increasing, and `causally_after` is the least instant that fits.
use goblin_king.Base.{ℕ, ◌≤◌, ◌<◌, ◌≡◌, refl, Option, some, List, [], ◌∷◌, max, arith, All, All-map}
use goblin_king.CausalTime.{
  DateTime, MonotonicUtcClock, ensure_utc, now, normalized, latest, lift_above, causally_after,
  causally_after_now,
}

-- The values that one clock returns for a sequence of wall clock readings.
unfoldable pub readings : MonotonicUtcClock → List DateTime → List ℕ
unfolding now
readings clock [] = []
readings clock (wall ∷ walls) = let (t, clock') = now wall clock in t ∷ readings clock' walls

-- Every value is later than the values before it.
abbrev pub IsIncreasing : List ℕ → Type 0
IsIncreasing [] = Unit
IsIncreasing (t ∷ ts) = All (λ u. t < u) ts × IsIncreasing ts

readings_above :
    (m : ℕ) (clock : MonotonicUtcClock) (walls : List DateTime)
    → clock.last ≡ some m
    → All (λ u. m < u) (readings clock walls) × IsIncreasing (readings clock walls)
unfolding readings
readings_above m clock [] h = (tt, tt)
readings_above m clock (wall ∷ walls) h =
    let t = (now wall clock).0 in
    let (above, increasing) = readings_above t (now wall clock).1 walls refl in
    let later : m < t = ground arith in
    ((later, All-map (λ u. t < u) (λ u. m < u) (λ u p. omega arith) _ above), (above, increasing))

-- Whatever the wall clock does, also when it stands still or jumps back, each value that a clock
-- returns is strictly later than all the values that it returned before.
pub readings-IsIncreasing :
    (clock : MonotonicUtcClock) (walls : List DateTime) → IsIncreasing (readings clock walls)
unfolding readings
readings-IsIncreasing clock [] = tt
readings-IsIncreasing clock (wall ∷ walls) =
    readings_above (now wall clock).0 (now wall clock).1 walls refl

-- A value is never earlier than the wall clock's reading.
now-ge_wall : (wall : DateTime) (clock : MonotonicUtcClock) → ensure_utc wall ≤ (now wall clock).0
unfolding now
now-ge_wall wall clock = ground arith

latest_bounds : (m : ℕ) (ps : List ℕ) → (m ≤ latest m ps) × All (λ p. p ≤ latest m ps) ps
unfolding latest
latest_bounds m [] = (omega arith, tt)
latest_bounds m (p ∷ ps) =
    let (low, rest) = latest_bounds (max m p) ps in (omega arith, (omega arith, rest))

latest_least : (m b : ℕ) (ps : List ℕ) → m < b → All (λ p. p < b) ps → latest m ps < b
unfolding latest
latest_least m b [] h hs = h
latest_least m b (p ∷ ps) h hs = latest_least (max m p) b ps (omega (arith, hs.0)) hs.1

lift_above-after :
    (ps : List ℕ) (current : ℕ)
    → (current ≤ lift_above ps current) × All (λ p. p < lift_above ps current) ps
unfolding lift_above
lift_above-after [] current = (omega arith, tt)
lift_above-after (p ∷ ps) current =
    let (low, rest) = latest_bounds p ps in
    let floor : latest p ps < lift_above (p ∷ ps) current = ground arith in
    (
      ground arith,
      (
        omega arith,
        All-map (λ q. q ≤ latest p ps) (λ q. q < lift_above (p ∷ ps) current) (λ q h. omega arith)
            ps rest,
      ),
    )

lift_above_least :
    (ps : List ℕ) (current b : ℕ) → current ≤ b → All (λ p. p < b) ps → lift_above ps current ≤ b
unfolding lift_above
lift_above_least [] current b h hs = h
lift_above_least (p ∷ ps) current b h hs = ground (arith, latest_least p b ps hs.0 hs.1)

-- The timestamp is at or after the candidate and strictly after every predecessor that is given.
pub causally_after_lem :
    (predecessors : List (Option DateTime)) (candidate : DateTime)
    → (ensure_utc candidate ≤ causally_after predecessors candidate)
      × All (λ p. p < causally_after predecessors candidate) (normalized predecessors)
unfolding causally_after
causally_after_lem predecessors candidate =
    lift_above-after (normalized predecessors) (ensure_utc candidate)

-- No earlier instant would do: any instant at or after the candidate and strictly after every
-- predecessor is at or after the timestamp.
pub causally_after_least :
    (predecessors : List (Option DateTime)) (candidate : DateTime) (b : ℕ)
    → ensure_utc candidate ≤ b
    → All (λ p. p < b) (normalized predecessors)
    → causally_after predecessors candidate ≤ b
unfolding causally_after
causally_after_least predecessors candidate b h hs =
    lift_above_least (normalized predecessors) (ensure_utc candidate) b h hs

-- Without a candidate the timestamp follows its predecessors and the wall clock too.
pub causally_after_now_lem :
    (predecessors : List (Option DateTime)) (wall : DateTime) (clock : MonotonicUtcClock)
    → (ensure_utc wall ≤ (causally_after_now predecessors wall clock).0)
      × All (λ p. p < (causally_after_now predecessors wall clock).0) (normalized predecessors)
unfolding causally_after_now
causally_after_now_lem predecessors wall clock =
    let (low, rest) = lift_above-after (normalized predecessors) (now wall clock).0 in
    (omega (arith, now-ge_wall wall clock), rest)
