-- ===== src/RateLimiter/FixedWindow.antt =====
-- The decorator `limit` of backend/app/middleware/rate_limiter.py with its counters in memory. What
-- the endpoint does is left out: the wrapper answers whether it is called. Times are microseconds
-- of the monotonic clock.
use ninai.Base.{
  Option, Text, [], if◌then◌else◌, leb, ltb, none, same_text, some, ℕ, ◌++◌, ◌+◌, ◌-◌, ◌/◌, ◌∷◌,
}
use ninai.RateLimiter.{seconds}

-- `_memory`: a count and the time it expires at, for each key.
abbrev pub Memory : Type 0
Memory = Text → Option (ℕ × ℕ)

pub data LimitStatus : Type 0 where
  called : LimitStatus
  -- HTTP_429_TOO_MANY_REQUESTS with Retry-After.
  too_many_requests : ℕ → LimitStatus

-- f"ratelimit:{key_prefix}:{subject}:{endpoint_id}", from the client and the path where there is a
-- request, else from the user and the prefix again.
abbrev pub rate_key : Text → Text → Text → Text
rate_key key_prefix subject endpoint_id =
    (114 ∷ 97 ∷ 116 ∷ 101 ∷ 108 ∷ 105 ∷ 109 ∷ 105 ∷ 116 ∷ 58 ∷ [])
    ++ (key_prefix ++ 58 ∷ (subject ++ 58 ∷ endpoint_id))

abbrev pub set_entry : Text → ℕ × ℕ → Memory → Memory
set_entry key entry m k = if same_text key k then some entry else m k

-- The count and the time it expires at, after this request.
unfoldable pub counted : ℕ → ℕ → Option (ℕ × ℕ) → ℕ × ℕ
counted window now none = (1, now + window)
counted window now (some (n, expires_at)) =
    if leb expires_at now then (1, now + window) else (n + 1, expires_at)

unfoldable pub answer : ℕ → ℕ → ℕ × ℕ → LimitStatus
answer max_requests now (n, expires_at) =
    if ltb max_requests n then too_many_requests ((expires_at - now) / 1000000) else called

-- The wrapper, with its limiter in memory.
unfoldable pub wrapper : ℕ → ℕ → Text → ℕ → Memory → LimitStatus × Memory
unfolding counted answer
wrapper max_requests window_seconds key now m =
    let entry = counted (seconds window_seconds) now (m key) in
    (answer max_requests now entry, set_entry key entry m)
