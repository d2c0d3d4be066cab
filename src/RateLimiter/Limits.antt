-- ===== src/RateLimiter/Limits.antt =====
-- `check_rate_limit` with its defaults and key prefix (backend/app/services/rate_limiter.py).
use ninai.Base.{List, Option, Text, [], refl, true, ℕ, ◌∷◌, ◌≡◌}
use ninai.RateLimiter.{RateLimiter, Server, admit, check_rate_limit, or_default, redis_key, seconds}
use ninai.RateLimiter.Window.{InOrder, WithinLimit, admit-WithinLimit, admitted_times, calls}

module _ (server : Server) (r : RateLimiter) (asked window : Option ℕ) where
  abbrev pub limit_of : ℕ
  limit_of = or_default asked r.default_limit

  -- In microseconds.
  abbrev pub window_of : ℕ
  window_of = seconds (or_default window r.default_window)

  -- The times at which requests for the key `k` were admitted, newest first, when
  -- `check_rate_limit` is called for each key and time in turn.
  unfoldable pub checks : Text → List (Text × ℕ) → server.State → List ℕ → List ℕ
  unfolding admitted_times
  checks k [] s log = log
  checks k ((key, now) ∷ rest) s log =
      let (status, s') = check_rate_limit server r true key asked window now s in
      checks k rest s' (admitted_times server limit_of window_of k key now status log)

  abbrev with_prefix : List (Text × ℕ) → List (Text × ℕ)
  with_prefix [] = []
  with_prefix ((key, now) ∷ rest) = (redis_key key, now) ∷ with_prefix rest

  checks-eq-calls :
      (k : Text) (cs : List (Text × ℕ)) (s : server.State) (log : List ℕ)
      → checks k cs s log ≡ calls server limit_of window_of (redis_key k) (with_prefix cs) s log
  unfolding checks calls check_rate_limit
  checks-eq-calls k [] s log = refl
  checks-eq-calls k ((key, now) ∷ rest) s log =
      let (status, s') = admit server (redis_key key) limit_of window_of now s in
      checks-eq-calls k rest s' (admitted_times server limit_of window_of k key now status log)

  prefix-InOrder :
      (now : ℕ) (cs : List (Text × ℕ))
      → InOrder server limit_of window_of now cs
      → InOrder server limit_of window_of now (with_prefix cs)
  prefix-InOrder now [] o = tt
  prefix-InOrder now ((key, at) ∷ rest) (a, b, o) = (a, b, prefix-InOrder at rest o)

  -- Over calls of `check_rate_limit` for any keys, in the order of time and while the server
  -- answers: each time a request is admitted, the window that ends with it holds no more than the
  -- limit of requests admitted for its key, that one included.
  pub checks-WithinLimit :
      (k : Text) (cs : List (Text × ℕ)) (s : server.State)
      → InOrder server limit_of window_of 0 cs
      → WithinLimit limit_of window_of (checks k cs s [])
  checks-WithinLimit k cs s o = rw (checks-eq-calls k cs s []) (
      admit-WithinLimit server limit_of window_of (redis_key k) (with_prefix cs) s
        (prefix-InOrder 0 cs o))
