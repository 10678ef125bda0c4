-- ===== src/Tests/RateLimit.antt =====
-- A token that is allowed two calls per minute.
use goblin_king.Base.{◌≡◌, refl, [], ◌∷◌, arith}
use goblin_king.RateLimit.{RateLimits, check_rate_limit, count_check, increment_rate_limit}
use goblin_king.RateLimit.Window.{passed, passed-min}
use goblin_king.RateLimit.Key.{rate_key}

abbrev no_limits : RateLimits
no_limits = record { windows = []; denials = [] }

-- The third call of the first minute is refused; the call at 60 seconds begins a new window.
passed_run : passed "t1" "jobs" 2 (0 ∷ 1000 ∷ 2000 ∷ 60000000 ∷ []) no_limits ≡ 3
unfolding passed check_rate_limit count_check increment_rate_limit rate_key
    goblin_king.Table.get_row goblin_king.Table.update_where
passed_run = refl

passed-min_example : passed "t1" "jobs" 2 (0 ∷ 1000 ∷ 2000 ∷ []) no_limits ≡ 2
unfolding goblin_king.Table.get_row
passed-min_example =
    passed-min "t1" "jobs" 2 0 (1000 ∷ 2000 ∷ []) no_limits (omega arith) refl
      (omega arith, (omega arith, tt))
