-- ===== src/RateLimit.antt =====
-- Rate limits per token and route: increment_rate_limit of store.py and check_rate_limit of auth.py.
pub mod Key
pub mod Window
use goblin_king.Base.{
  ℕ, suc, ◌+◌, String, ◌==◌, Bool, true, false, Option, none, some, List, [], ◌∷◌, ◌++◌, leb, ltb,
  eqb, if◌then◌else◌,
}
use goblin_king.Table.{get_row, update_where}
use goblin_king.RateLimit.Key.{rate_key}

pub record RateLimitRecord : Type 0 where
  pub key : String
  pub window_started_at : ℕ
  pub count : ℕ

-- What the audit record of a denial says of its limit.
pub record Denial : Type 0 where
  pub token_id : String
  pub route : String
  pub limit : ℕ
  pub count : ℕ

-- The rate_limits table, and the denials in the audit log.
pub record RateLimits : Type 0 where
  pub windows : List RateLimitRecord
  pub denials : List Denial

abbrev pub window_key : RateLimitRecord → String
window_key row = row.key

unfoldable pub increment_rate_limit :
    (key : String) (window_started_at : ℕ) (reset_existing : Bool)
    → RateLimits
    → RateLimits × RateLimitRecord
increment_rate_limit key window_started_at reset_existing limits =
    elim (get_row window_key key limits.windows) [
      | none ↦
          let first : RateLimitRecord = record {
            key = key;
            window_started_at = window_started_at;
            count = 1;
          } in
          (record limits { windows = limits.windows ++ first ∷ [] }, first)
      | some row ↦
          let started_at = if reset_existing then window_started_at else row.window_started_at in
          let count = if reset_existing then 1 else row.count + 1 in
          (
            record limits {
              windows =
                  update_where (λ window. window.key == key)
                    (λ window. record window { window_started_at = started_at; count = count })
                    limits.windows;
            },
            record { key = key; window_started_at = started_at; count = count },
          )
    ]

-- A minute, in microseconds.
abbrev pub minute : ℕ
minute = 60000000

-- The window of a check at a time: counted further, or begun again after a minute.
unfoldable pub count_check : (key : String) (now : ℕ) → RateLimits → RateLimits × RateLimitRecord
unfolding increment_rate_limit
count_check key now limits =
    let (counted, existing) = increment_rate_limit key now false limits in
    if leb (existing.window_started_at + minute) now
    then increment_rate_limit key now true counted
    else (counted, existing)

-- `false` is the RateLimitExceeded that is raised. A limit that is not positive is 0 here.
unfoldable pub check_rate_limit :
    (now : ℕ) (token_id route : String) (max_per_minute : ℕ) → RateLimits → RateLimits × Bool
unfolding count_check
check_rate_limit now token_id route max_per_minute limits =
    if eqb max_per_minute 0
    then (limits, true)
    else let (counted, existing) = count_check (rate_key token_id route) now limits in
      if ltb max_per_minute existing.count
      then (
        record counted {
          denials =
              counted.denials
              ++ record {
                token_id = token_id;
                route = route;
                limit = max_per_minute;
                count = existing.count;
              }
                ∷ [];
        },
        false,
      )
      else (counted, true)
