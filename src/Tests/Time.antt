-- ===== src/Tests/Time.antt =====
-- The clock and the causal timestamps at concrete readings.
use goblin_king.Base.{◌≤◌, ◌<◌, ◌≡◌, refl, none, some, [], ◌∷◌, arith, All}
use goblin_king.CausalTime.{utc, naive, ensure_utc, causally_after, normalized}
use goblin_king.CausalTime.Order.{
  readings, IsIncreasing, readings-IsIncreasing, causally_after_lem, causally_after_least,
}

-- The wall clock stands still, and then jumps back.
readings_run :
    readings (record { last = none }) (utc 7 ∷ utc 7 ∷ naive 3 ∷ utc 20 ∷ []) ≡ 7 ∷ 8 ∷ 9 ∷ 20 ∷ []
unfolding readings
readings_run = refl

readings-IsIncreasing_example :
    IsIncreasing (readings (record { last = none }) (utc 7 ∷ utc 7 ∷ naive 3 ∷ []))
readings-IsIncreasing_example =
    readings-IsIncreasing (record { last = none }) (utc 7 ∷ utc 7 ∷ naive 3 ∷ [])

causally_after_lem_example :
    (ensure_utc (utc 5) ≤ causally_after (some (utc 9) ∷ none ∷ some (naive 4) ∷ []) (utc 5))
    × All
        (λ p. p < causally_after (some (utc 9) ∷ none ∷ some (naive 4) ∷ []) (utc 5))
        (normalized (some (utc 9) ∷ none ∷ some (naive 4) ∷ []))
causally_after_lem_example = causally_after_lem (some (utc 9) ∷ none ∷ some (naive 4) ∷ []) (utc 5)

causally_after_least_example : causally_after (some (utc 9) ∷ none ∷ []) (utc 5) ≤ 10
unfolding normalized ensure_utc
causally_after_least_example =
    causally_after_least (some (utc 9) ∷ none ∷ []) (utc 5) 10 (omega arith) (omega arith)
