-- ===== src/RateLimiter/Charges.antt =====
-- The charges that the quota grants (backend/app/services/rate_limiter.py).
use native.Mathlib.Nat.{le_refl, le_trans}
use ninai.Base.{
  Bool-cases, List, Text, [], ap, arith, false, if◌then◌else◌, inl, inr, ltb, none, refl, same_text,
  same_text-eq, some, true, ℕ, ◌+◌, ◌<◌, ◌∙◌, ◌∷◌, ◌≡◌, ◌≤◌,
}
use ninai.RateLimiter.Quota.{
  Counters, QuotaStatus, charge, check_quota, granted, over_quota, sixty_days, usage_of,
}

module _ (counters : Counters) (monthly_limit : ℕ) where
  open counters use {Store, number, put, expire, number-put, number-expire}

  unfoldable pub granted_amount : Text → Text → ℕ → QuotaStatus → ℕ
  granted_amount k key amount (granted u) = if same_text key k then amount else 0
  granted_amount k key amount over_quota = 0

  -- The total that was granted for the key `k` over calls with a key, an amount and a time each.
  unfoldable pub charges : Text → List (Text × ℕ × ℕ) → Store → ℕ
  unfolding granted_amount
  charges k [] s = 0
  charges k ((key, amount, now) ∷ rest) s =
      let (status, s') = check_quota counters true key amount (some monthly_limit) now s in
      granted_amount k key amount status + charges k rest s'

  -- The calls come in the order of time, and before `end'`.
  abbrev pub Between : ℕ → ℕ → List (Text × ℕ × ℕ) → Type 0
  Between now end' [] = Unit
  Between now end' ((key, amount, later) ∷ rest) =
      (now ≤ later) × (later < end') × Between later end' rest

  -- The counter has the total until `end'`.
  abbrev Counts : Text → ℕ → ℕ → Store → ℕ → Type 0
  Counts k now end' s total = (at : ℕ) → now ≤ at → at < end' → usage_of (number k at s) ≡ total

  unfoldable pub charged : Text → ℕ → ℕ → Store → Store
  charged key new_usage now s = expire key sixty_days now (put key new_usage s)

  charged-Counts :
      (k key : Text) (now end' new_usage : ℕ) (s : Store)
      → same_text key k ≡ true
      → end' ≤ now + sixty_days
      → Counts k now end' (charged key new_usage now s) new_usage
  unfolding charged
  charged-Counts k key now end' new_usage s same span at le lt =
      let alive : ltb at (now + sixty_days) ≡ true = ground arith in
      rw (number-expire key k sixty_days now at (put key new_usage s) le, same)
        (rw alive (rw (number-put key k new_usage now s, same) refl))

  other-Counts :
      (k key : Text) (now end' new_usage total : ℕ) (s : Store)
      → same_text key k ≡ false
      → Counts k now end' s total
      → Counts k now end' (charged key new_usage now s) total
  unfolding charged
  other-Counts k key now end' new_usage total s other c at le lt =
      rw
        (
          number-expire key k sixty_days now at (put key new_usage s) le,
          other,
          number-put key k new_usage at s,
          other,
        )
        (c at le lt)

  charges-le :
      (k : Text) (start now end' total : ℕ) (cs : List (Text × ℕ × ℕ)) (s : Store)
      → start ≤ now
      → end' ≤ start + sixty_days
      → Between now end' cs
      → Counts k now end' s total
      → total ≤ monthly_limit
      → total + charges k cs s ≤ monthly_limit
  unfolding charges check_quota charge charged
  charges-le k start now end' total [] s le span b c h = omega arith
  charges-le k start now end' total ((key, amount, at) ∷ rest) s le span (x, y, b) c h =
      let c' : Counts k at end' s total = λ t u v. c t (le_trans x u) v in
      let s' = charged key (usage_of (number key at s) + amount) at s in
      elim (Bool-cases (ltb monthly_limit (usage_of (number key at s) + amount))) [
        | inl over ↦
            let later : total + charges k rest s ≤ monthly_limit =
              charges-le k start at end' total rest s (le_trans le x) span b c' h in
            rw over (omega arith)
        | inr fits ↦ rw fits (elim (Bool-cases (same_text key k)) [
          | inr other ↦
              let later : total + charges k rest s' ≤ monthly_limit =
                charges-le k start at end' total rest s' (le_trans le x) span b
                  (other-Counts k key at end' (usage_of (number key at s) + amount) total s other
                    c')
                  h in
              rw other (with_none total _ later)
          | inl same ↦
              let used : usage_of (number key at s) ≡ total =
                ap (λ t. usage_of (number t at s)) (same_text-eq key k same)
                ∙ c' at (le_refl at) y in
              let later : usage_of (number key at s) + amount + charges k rest s' ≤ monthly_limit =
                charges-le k start at end' (usage_of (number key at s) + amount) rest s'
                  (le_trans le x) span b
                  (charged-Counts k key at end' (usage_of (number key at s) + amount) s same
                    (ground arith))
                  (ground arith) in
              rw same (with_amount total amount _ _ used later)
        ])
      ]
    where
      with_none : (a b : ℕ) → a + b ≤ monthly_limit → a + (0 + b) ≤ monthly_limit
      with_none a b h = omega arith

      with_amount : (a m u b : ℕ) → u ≡ a → u + m + b ≤ monthly_limit → a + (m + b) ≤ monthly_limit
      with_amount a m u b e h = omega arith

  -- Over calls of `check_quota` with one monthly limit, in the order of time and within 60 days
  -- (as those of a month are), while the server answers: the amounts granted for a key that was
  -- new at the start add up to no more than the limit.
  pub charges-within_quota :
      (k : Text) (start : ℕ) (cs : List (Text × ℕ × ℕ)) (s : Store)
      → Between start (start + sixty_days) cs
      → ((at : ℕ) → number k at s ≡ none)
      → charges k cs s ≤ monthly_limit
  charges-within_quota k start cs s b fresh =
      let total : 0 + charges k cs s ≤ monthly_limit =
        charges-le k start start (start + sixty_days) 0 cs s (le_refl start)
          (le_refl (start + sixty_days)) b (λ at _ _. ap usage_of (fresh at)) (omega arith) in
      omega arith
