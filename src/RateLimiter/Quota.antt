-- ===== src/RateLimiter/Quota.antt =====
-- The monthly quotas of backend/app/services/rate_limiter.py. The counters of Redis are the
-- parameter `Counters`.
use ninai.Base.{
  Bool, Option, Text, [], false, if◌then◌else◌, ltb, none, same_text, some, true, ℕ, ◌++◌, ◌+◌, ◌-◌,
  ◌∷◌, ◌≡◌, ◌≤◌,
}

-- What the code relies on: a key has its number until it is set anew, deleted, or its time is up;
-- setting it drops the time.
pub record Counters : Type 1 where
  pub Store : Type 0
  pub number : Text → ℕ → Store → Option ℕ
  pub put : Text → ℕ → Store → Store
  pub expire : Text → ℕ → ℕ → Store → Store
  pub delete : Text → Store → Store
  pub number-put :
      (key k : Text) (v now : ℕ) (s : Store)
      → number k now (put key v s) ≡ (if same_text key k then some v else number k now s)
  pub number-expire :
      (key k : Text) (ttl now later : ℕ) (s : Store)
      → now ≤ later
      → number k later (expire key ttl now s) ≡ (
          if same_text key k
          then (if ltb later (now + ttl) then number k now s else none)
          else number k later s)
  pub number-delete :
      (key k : Text) (now : ℕ) (s : Store)
      → number k now (delete key s) ≡ (if same_text key k then none else number k now s)

pub data QuotaStatus : Type 0 where
  -- `used` and `remaining`; both are none where there is no limit or no answer (0 and -1).
  granted : Option (ℕ × ℕ) → QuotaStatus
  -- RateLimitExceeded
  over_quota : QuotaStatus

-- `int(current) if current else 0`
abbrev pub usage_of : Option ℕ → ℕ
usage_of none = 0
usage_of (some n) = n

-- f"quota:{org_id}:{resource}:{month_key}"
unfoldable pub quota_key : Text → Text → Text → Text
quota_key org_id resource month =
    (113 ∷ 117 ∷ 111 ∷ 116 ∷ 97 ∷ 58 ∷ []) ++ (org_id ++ 58 ∷ (resource ++ 58 ∷ month))

-- 60 days, in microseconds.
abbrev pub sixty_days : ℕ
sixty_days = 5184000000000

module _ (counters : Counters) where
  open counters use {Store, number, put, expire, delete}

  -- The `try` of check_quota on the server's answers.
  unfoldable pub charge : Text → ℕ → ℕ → ℕ → Store → QuotaStatus × Store
  charge key amount monthly_limit now s =
      let new_usage = usage_of (number key now s) + amount in
      if ltb monthly_limit new_usage then (over_quota, s) else (
        granted (some (new_usage, monthly_limit - new_usage)),
        expire key sixty_days now (put key new_usage s),
      )

  -- check_quota; `answers` is whether there is a server and it answers.
  unfoldable pub check_quota : Bool → Text → ℕ → Option ℕ → ℕ → Store → QuotaStatus × Store
  unfolding charge
  check_quota answers key amount none now s = (granted none, s)
  check_quota false key amount (some monthly_limit) now s = (granted none, s)
  check_quota true key amount (some monthly_limit) now s = charge key amount monthly_limit now s

  -- get_usage_stats and reset_usage, for the key of the month.
  unfoldable pub get_usage_stats : Bool → Text → ℕ → Store → ℕ
  get_usage_stats false key now s = 0
  get_usage_stats true key now s = usage_of (number key now s)

  unfoldable pub reset_usage : Bool → Text → Store → Bool × Store
  reset_usage false key s = (false, s)
  reset_usage true key s = (true, delete key s)
