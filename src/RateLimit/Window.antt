-- ===== src/RateLimit/Window.antt =====
-- How many checks pass in one window.
use goblin_king.Base.{
  ℕ, suc, ◌+◌, ◌-◌, ◌<◌, min, String, ◌==◌, eq_iff, eq_refl, ◌≡◌, refl, Bool, true, false, Option,
  none, some, List, [], ◌∷◌, ◌++◌, leb, ltb, eqb, if◌then◌else◌, arith, length, All, Bool-cases,
  Option-cases, inl, inr, ap, ◌∙◌,
}
use goblin_king.Table.{get_row}
use goblin_king.Table.Laws.{get_row-update_where, get_row-key}
use goblin_king.RateLimit.{
  RateLimitRecord, RateLimits, window_key, increment_rate_limit, minute, count_check,
  check_rate_limit,
}
use goblin_king.RateLimit.Key.{rate_key}

-- The window of a key.
abbrev pub window_of : String → RateLimits → Option RateLimitRecord
window_of key limits = get_row window_key key limits.windows

-- The checks of one token and route at a list of times, and how many of them pass.
unfoldable pub passed : (token_id route : String) (max_per_minute : ℕ) → List ℕ → RateLimits → ℕ
passed token_id route max_per_minute [] limits = 0
passed token_id route max_per_minute (now ∷ times) limits =
    let (after, ok) = check_rate_limit now token_id route max_per_minute limits in
    let rest = passed token_id route max_per_minute times after in if ok then suc rest else rest

abbrev pub window : String → (started_at count : ℕ) → RateLimitRecord
window key started_at count = record { key = key; window_started_at = started_at; count = count }

get_row-snoc :
    (key : String) (row : RateLimitRecord) (t : List RateLimitRecord)
    → get_row window_key key t ≡ none
    → row.key ≡ key
    → get_row window_key key (t ++ row ∷ []) ≡ some row
unfolding get_row
get_row-snoc key row [] h e = ground (arith, eq_iff row.key key)
get_row-snoc key row (x ∷ t) h e = ground (arith, get_row-snoc key row t)

-- A first increment opens a window.
increment_rate_limit-opens :
    (key : String) (now : ℕ) (reset : Bool) (limits : RateLimits)
    → window_of key limits ≡ none
    → (window_of key (increment_rate_limit key now reset limits).0 ≡ some (window key now 1))
      × ((increment_rate_limit key now reset limits).1 ≡ window key now 1)
unfolding increment_rate_limit
increment_rate_limit-opens key now reset limits e =
    rw (increment_rate_limit, e) (get_row-snoc key (window key now 1) limits.windows e refl, refl)

-- A later increment counts on, or begins a window again.
increment_rate_limit-counts :
    (key : String) (now : ℕ) (reset : Bool) (limits : RateLimits) (row : RateLimitRecord)
    → window_of key limits ≡ some row
    → (window_of key (increment_rate_limit key now reset limits).0
        ≡ some (
            window key
              (if reset then now else row.window_started_at)
              (if reset then 1 else row.count + 1)))
      × ((increment_rate_limit key now reset limits).1
          ≡ window key
              (if reset then now else row.window_started_at)
              (if reset then 1 else row.count + 1))
unfolding increment_rate_limit
increment_rate_limit-counts key now reset limits row e =
    let started_at = if reset then now else row.window_started_at in
    let count = if reset then 1 else row.count + 1 in
    let change : RateLimitRecord → RateLimitRecord =
      λ r. record r { window_started_at = started_at; count = count } in
    let found =
      get_row-update_where window_key key (λ r. r.key == key) change limits.windows (λ x _. refl) in
    let same = get_row-key window_key key limits.windows row e in
    rw (increment_rate_limit, e) (ground (arith, eq_refl key), refl)

-- No window of the key is open: there is none, or it began at least a minute ago.
abbrev pub is_fresh : String → ℕ → RateLimits → Bool
is_fresh key now limits = elim (window_of key limits) [
  | none ↦ true
  | some row ↦ leb (row.window_started_at + minute) now
]

count_check-fresh :
    (key : String) (now : ℕ) (limits : RateLimits)
    → is_fresh key now limits ≡ true
    → (window_of key (count_check key now limits).0 ≡ some (window key now 1))
      × ((count_check key now limits).1 ≡ window key now 1)
unfolding count_check
count_check-fresh key now limits h = elim (Option-cases (window_of key limits)) [
  | inl e ↦
      let (found, returned) = increment_rate_limit-opens key now false limits e in
      let late : leb ((increment_rate_limit key now false limits).1.window_started_at + minute) now
          ≡ false =
        rw returned (ground arith) in
      rw late (found, returned)
  | inr (row, e) ↦
      let (found, returned) = increment_rate_limit-counts key now false limits row e in
      let late : leb ((increment_rate_limit key now false limits).1.window_started_at + minute) now
          ≡ true =
        rw returned (ground arith) in
      rw late (
        increment_rate_limit-counts key now true (increment_rate_limit key now false limits).0
          (window key row.window_started_at (row.count + 1)) found)
]

count_check-open :
    (key : String) (now : ℕ) (limits : RateLimits) (row : RateLimitRecord)
    → window_of key limits ≡ some row
    → now < row.window_started_at + minute
    → (window_of key (count_check key now limits).0
        ≡ some (window key row.window_started_at (row.count + 1)))
      × ((count_check key now limits).1 ≡ window key row.window_started_at (row.count + 1))
unfolding count_check
count_check-open key now limits row e h =
    let (found, returned) = increment_rate_limit-counts key now false limits row e in
    let late : leb ((increment_rate_limit key now false limits).1.window_started_at + minute) now
        ≡ false =
      rw returned (ground arith) in
    rw late (found, returned)

-- A check passes while the count is within the limit, and leaves the window as it was counted.
check_rate_limit-count :
    (now : ℕ) (token_id route : String) (max_per_minute : ℕ) (limits : RateLimits)
    → 0 < max_per_minute
    → (window_of
          (rate_key token_id route)
          (check_rate_limit now token_id route max_per_minute limits).0
        ≡ window_of (rate_key token_id route) (count_check (rate_key token_id route) now limits).0)
      × ((check_rate_limit now token_id route max_per_minute limits).1
          ≡ leb (count_check (rate_key token_id route) now limits).1.count max_per_minute)
unfolding check_rate_limit
check_rate_limit-count now token_id route max_per_minute limits h =
    let positive : eqb max_per_minute 0 ≡ false = ground arith in
    elim (Bool-cases
      (ltb max_per_minute (count_check (rate_key token_id route) now limits).1.count)) [
        | inl e ↦ rw (positive, e) (refl, ground arith)
        | inr e ↦ rw (positive, e) (refl, ground arith)
      ]

-- While a window is open, the checks pass up to the limit.
passed-open :
    (token_id route : String) (max_per_minute : ℕ) (times : List ℕ) (limits : RateLimits)
    (row : RateLimitRecord)
    → 0 < max_per_minute
    → window_of (rate_key token_id route) limits ≡ some row
    → All (λ now. now < row.window_started_at + minute) times
    → passed token_id route max_per_minute times limits
      ≡ min (length times) (max_per_minute - row.count)
unfolding passed
passed-open token_id route max_per_minute [] limits row p e within = omega arith
passed-open token_id route max_per_minute (now ∷ times) limits row p e within =
    let key = rate_key token_id route in
    let (kept, ok) = check_rate_limit-count now token_id route max_per_minute limits p in
    let (found, returned) = count_check-open key now limits row e within.0 in
    let rest =
      passed-open token_id route max_per_minute times
        (check_rate_limit now token_id route max_per_minute limits).0
        (window key row.window_started_at (row.count + 1)) p (kept ∙ found) within.1 in
    let counted : (check_rate_limit now token_id route max_per_minute limits).1
        ≡ leb (row.count + 1) max_per_minute =
      ok ∙ ap (λ r. leb r.count max_per_minute) returned in
    ground arith

-- From a check that finds no window of its token and route, or one that began at least a minute ago,
-- exactly as many of this and the later checks within a minute pass as the limit allows, where the
-- limit is positive.
pub passed-min :
    (token_id route : String) (max_per_minute now : ℕ) (times : List ℕ) (limits : RateLimits)
    → 0 < max_per_minute
    → is_fresh (rate_key token_id route) now limits ≡ true
    → All (λ later. later < now + minute) times
    → passed token_id route max_per_minute (now ∷ times) limits
      ≡ min (suc (length times)) max_per_minute
unfolding passed
passed-min token_id route max_per_minute now times limits p fresh within =
    let key = rate_key token_id route in
    let (kept, ok) = check_rate_limit-count now token_id route max_per_minute limits p in
    let (found, returned) = count_check-fresh key now limits fresh in
    let rest =
      passed-open token_id route max_per_minute times
        (check_rate_limit now token_id route max_per_minute limits).0 (window key now 1) p
        (kept ∙ found) within in
    let counted : (check_rate_limit now token_id route max_per_minute limits).1
        ≡ leb 1 max_per_minute =
      ok ∙ ap (λ r. leb r.count max_per_minute) returned in
    ground arith
