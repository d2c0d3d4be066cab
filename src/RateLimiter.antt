-- ===== src/RateLimiter.antt =====
-- backend/app/services/rate_limiter.py: the sliding window of `check_rate_limit`. The Redis server
-- is the parameter `Server`. Times are microseconds and lie at least one window after the epoch, so
-- that `now - window` does not fall below 0.
pub mod Quota
pub mod Charges
pub mod Admission
pub mod Refusals
pub mod Window
pub mod Limits
pub mod FixedWindow
pub mod FirstCome
mod Tests
use ninai.Base.{
  Bool, List, Option, Text, [], count, false, first, if◌then◌else◌, leb, length, limit, ltb, none,
  not, same_text, select, some, suc, true, zero, ℕ, ◌*◌, ◌++◌, ◌+◌, ◌-◌, ◌/◌, ◌∷◌, ◌≡◌, ◌≤◌,
}

-- What the code relies on of the sorted sets of Redis: `scores key now` are the scores in a set at
-- a time, lowest first. A set keeps what it has when `expire` is called until its time is up.
pub record Server : Type 1 where
  pub State : Type 0
  pub scores : Text → ℕ → State → List ℕ
  pub zremrangebyscore : Text → ℕ → State → State
  pub zadd : Text → ℕ → ℕ → State → State
  pub expire : Text → ℕ → ℕ → State → State
  pub scores-zremrangebyscore :
      (key k : Text) (most now : ℕ) (s : State)
      → scores k now (zremrangebyscore key most s) ≡ (
          if same_text key k
          then select (λ x. not (leb x most)) (scores k now s)
          else scores k now s)
  pub count-zadd :
      (key k : Text) (x now : ℕ) (p : ℕ → Bool) (s : State)
      → same_text key k ≡ true
      → count p (scores k now (zadd key x now s)) ≡ count p (x ∷ scores k now s)
  pub scores-zadd_other :
      (key k : Text) (x now later : ℕ) (s : State)
      → same_text key k ≡ false
      → scores k later (zadd key x now s) ≡ scores k later s
  pub scores-expire :
      (key k : Text) (ttl now later : ℕ) (s : State)
      → now ≤ later
      → scores k later (expire key ttl now s) ≡ (
          if same_text key k
          then (if ltb later (now + ttl) then scores k now s else [])
          else scores k later s)

pub record RateLimiter : Type 0 where
  pub default_limit : ℕ
  pub default_window : ℕ

pub data RateStatus : Type 0 where
  -- `remaining` is none where the server does not answer (-1 in the source).
  permitted : ℕ → Option ℕ → RateStatus
  -- RateLimitExceeded, with the time to retry after.
  exceeded : ℕ → RateStatus

abbrev pub seconds : ℕ → ℕ
seconds n = n * 1000000

-- `limit or self.default_limit`
abbrev pub or_default : Option ℕ → ℕ → ℕ
or_default none d = d
or_default (some zero) d = d
or_default (some (suc n)) d = suc n

-- `max(0, int(oldest + window - now))`
unfoldable pub retry_after : Option ℕ → ℕ → ℕ → ℕ
retry_after none window now = window / 1000000
retry_after (some oldest) window now = (oldest + window - now) / 1000000

-- "ratelimit:" before the key
abbrev pub redis_key : Text → Text
redis_key key = (114 ∷ 97 ∷ 116 ∷ 101 ∷ 108 ∷ 105 ∷ 109 ∷ 105 ∷ 116 ∷ 58 ∷ []) ++ key

module _ (server : Server) where
  open server use {State, scores, zremrangebyscore, zadd, expire}

  -- The `try` of check_rate_limit on the server's answers; `window` is in microseconds.
  unfoldable pub admit : Text → ℕ → ℕ → ℕ → State → RateStatus × State
  unfolding retry_after
  admit key limit window now s =
      let s1 = zremrangebyscore key (now - window) s in
      let found = length (scores key now s1) in
      if leb limit found
      then (exceeded (retry_after (first (scores key now s1)) window now), s1)
      else (
        permitted limit (some (limit - found - 1)),
        expire key (window + seconds 60) now (zadd key now now s1),
      )

  -- check_rate_limit; `answers` is whether there is a server and it answers.
  unfoldable pub check_rate_limit :
      RateLimiter → Bool → Text → Option ℕ → Option ℕ → ℕ → State → RateStatus × State
  unfolding admit
  check_rate_limit r false key limit window now s =
      (permitted (or_default limit r.default_limit) none, s)
  check_rate_limit r true key limit window now s =
      admit (redis_key key) (or_default limit r.default_limit)
        (seconds (or_default window r.default_window)) now s
