-- ===== src/RateLimiter/Admission.antt =====
-- `check_admission` of backend/app/services/resource_accounting.py over the two limiters. The
-- number of the organization's memories, whose query may fail (`none`), is an argument; with 1 KB
-- each they are `memories / 1024` MB.
use ninai.Base.{
  Bool, Option, Text, [], false, if◌then◌else◌, ltb, none, some, suc, true, zero, ℕ, ◌*◌, ◌++◌, ◌∷◌,
}
use ninai.RateLimiter.{RateLimiter, RateStatus, Server, check_rate_limit, exceeded, permitted}
use ninai.RateLimiter.Quota.{Counters, QuotaStatus, check_quota, granted, over_quota, quota_key}

pub record AdmissionResult : Type 0 where
  pub admitted : Bool
  pub degraded : Bool

-- "tokens"
abbrev tokens_text : Text
tokens_text = 116 ∷ 111 ∷ 107 ∷ 101 ∷ 110 ∷ 115 ∷ []

-- f"org:{org_id}:api:{operation}"
abbrev pub api_key : Text → Text → Text
api_key org_id operation =
    (111 ∷ 114 ∷ 103 ∷ 58 ∷ []) ++ (org_id ++ (58 ∷ 97 ∷ 112 ∷ 105 ∷ 58 ∷ operation))

abbrev pub token_key : Text → Text → Text
token_key org_id month = quota_key org_id tokens_text month

abbrev pub monthly_tokens : ℕ
monthly_tokens = 1000000

-- `remaining < limit * 0.2`; the -1 of a call that fails open is below.
unfoldable pub is_nearly_used : Option (ℕ × ℕ) → Bool
is_nearly_used none = true
is_nearly_used (some (used, remaining)) = ltb (remaining * 5) monthly_tokens

module _ (counters : Counters) (server : Server) (r : RateLimiter) (answers : Bool) where
  pub record Limits : Type 0 where
    pub quotas : counters.Store
    pub windows : server.State

  -- The check of the storage; without an estimate the outer `except` admits.
  unfoldable pub check_storage : Bool → Option ℕ → AdmissionResult
  check_storage degraded none = record { admitted = true; degraded = false }
  check_storage degraded (some memories) = record {
    admitted = if ltb (10000 * 1024) memories then false else true;
    degraded = if ltb (9000 * 1024) memories then true else degraded;
  }

  unfoldable pub after_rate : Bool → Option ℕ → RateStatus → AdmissionResult
  unfolding check_storage
  after_rate degraded memories (exceeded n) = record { admitted = false; degraded = degraded }
  after_rate degraded memories (permitted l n) = check_storage degraded memories

  unfoldable pub check_rate : Text → Text → Bool → Option ℕ → ℕ → Limits → AdmissionResult × Limits
  unfolding after_rate
  check_rate org_id operation degraded memories now s =
      let (status, w) =
        check_rate_limit server r answers (api_key org_id operation) (some 100) (some 60) now
          s.windows in
      (after_rate degraded memories status, record s { windows = w })

  unfoldable pub after_quota :
      Text → Text → Option ℕ → ℕ → QuotaStatus → Limits → AdmissionResult × Limits
  unfolding check_rate is_nearly_used
  after_quota org_id operation memories now over_quota s =
      (record { admitted = false; degraded = false }, s)
  after_quota org_id operation memories now (granted u) s =
      check_rate org_id operation (is_nearly_used u) memories now s

  -- check_admission; `month` is the month of `now` in the key.
  unfoldable pub check_admission :
      Text → Text → Text → Option ℕ → Option ℕ → ℕ → Limits → AdmissionResult × Limits
  unfolding after_quota check_rate
  check_admission org_id month operation none memories now s =
      check_rate org_id operation false memories now s
  check_admission org_id month operation (some zero) memories now s =
      check_rate org_id operation false memories now s
  check_admission org_id month operation (some (suc n)) memories now s =
      let (status, q) =
        check_quota counters answers (token_key org_id month) (suc n) (some monthly_tokens) now
          s.quotas in
      after_quota org_id operation memories now status (record s { quotas = q })
