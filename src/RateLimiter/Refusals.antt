-- ===== src/RateLimiter/Refusals.antt =====
-- What a refused admission has used up (backend/app/services/resource_accounting.py).
use native.Mathlib.Nat.{le_refl}
use ninai.Base.{
  Bool-cases, Option, Text, ap, arith, false, inl, inr, ltb, refl, some, suc, true, ℕ, ◌+◌, ◌-◌,
  ◌≡◌, ◌≤◌,
}
use ninai.Permissions.Segments.{same_text_refl}
use ninai.RateLimiter.{RateLimiter, Server, check_rate_limit, exceeded}
use ninai.RateLimiter.Admission.{
  Limits, after_quota, after_rate, api_key, check_admission, check_rate, monthly_tokens, token_key,
}
use ninai.RateLimiter.Quota.{
  Counters, charge, check_quota, get_usage_stats, granted, sixty_days, usage_of,
}

module _ (counters : Counters) (server : Server) (r : RateLimiter) where
  charge_fits :
      (key : Text) (amount most now : ℕ) (q : counters.Store)
      → usage_of (counters.number key now q) + amount ≤ most
      → charge counters key amount most now q ≡ (
        granted (
            some (
              usage_of (counters.number key now q) + amount,
              most - (usage_of (counters.number key now q) + amount),
            )),
        counters.expire key sixty_days now
            (counters.put key (usage_of (counters.number key now q) + amount) q),
      )
  unfolding charge
  charge_fits key amount most now q h =
      elim (Bool-cases (ltb most (usage_of (counters.number key now q) + amount))) [
        | inl e ↦ absurd (over e h)
        | inr e ↦ rw e refl
      ]
    where
      over : {a b : ℕ} → ltb a b ≡ true → b ≤ a → ⊥
      over e h = ground arith

  number-charged :
      (key : Text) (v now : ℕ) (q : counters.Store)
      → counters.number key now (counters.expire key sixty_days now (counters.put key v q)) ≡ some v
  number-charged key v now q =
      let alive : ltb now (now + sixty_days) ≡ true = ground arith in
      rw
        (
          counters.number-expire key key sixty_days now now (counters.put key v q) (le_refl now),
          same_text_refl key,
          alive,
          counters.number-put key key v now q,
          same_text_refl key,
        )
        refl

  -- An admission that is refused for its request rate has charged its tokens all the same: where
  -- they fit into the month's quota and the window of the operation is full, the call answers that
  -- the request is not admitted, and the usage that the organization is shown has grown by the
  -- tokens.
  pub refused-charges :
      (org_id month operation : Text) (n retry now : ℕ) (memories : Option ℕ)
      (s : Limits counters server r true)
      → get_usage_stats counters true (token_key org_id month) now s.quotas + suc n ≤ monthly_tokens
      → (check_rate_limit server r true
          (api_key org_id operation)
          (some 100)
          (some 60)
          now
          s.windows).0
        ≡ exceeded retry
      → ((check_admission counters server r true org_id month operation
            (some (suc n))
            memories
            now
            s).0.admitted
          ≡ false)
        × (get_usage_stats counters true
              (token_key org_id month)
              now
              (check_admission counters server r true org_id month operation
                (some (suc n))
                memories
                now
                s).1.quotas
            ≡ get_usage_stats counters true (token_key org_id month) now s.quotas + suc n)
  unfolding check_admission after_quota check_rate check_quota get_usage_stats after_rate
  refused-charges org_id month operation n retry now memories s fits full =
      rw (charge_fits (token_key org_id month) (suc n) monthly_tokens now s.quotas fits) (
        rw full (
          refl,
          ap usage_of (
              number-charged (token_key org_id month)
                (usage_of (counters.number (token_key org_id month) now s.quotas) + suc n) now
                s.quotas),
        ))
