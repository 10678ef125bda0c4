-- ===== src/RateLimit/Key.antt =====
-- The key of a rate limit, as check_rate_limit of auth.py formats it.
use Prim.Native.String.{String, ◌++◌}

-- `f"{principal.token_id}:{route}"`
unfoldable pub rate_key : (token_id route : String) → String
rate_key token_id route = token_id ++ (":" ++ route)
