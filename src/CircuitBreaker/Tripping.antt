-- ===== src/CircuitBreaker/Tripping.antt =====
-- When a closed breaker opens.
use ninai.Base.{
  Bool, Bool-cases, [], arith, false, if◌then◌else◌, inl, inr, leb, suc, true, zero, ℕ, ◌*◌, ◌+◌,
  ◌||◌, ◌∷◌, ◌≡◌, ◌≤◌,
}
use ninai.CircuitBreaker.{
  CircuitBreaker, CircuitBreakerConfig, apply, closed, failing, new, opened, run, succeeding,
}
use ninai.CircuitBreaker.Recovery.{repeat}

record Calm (c : CircuitBreakerConfig) (m : ℕ) (b : CircuitBreaker) : Type 0 where
  same : b.config ≡ c
  still : b.state ≡ closed
  failures : b.failure_count ≡ 0
  total : b.total_failures ≡ 0
  calls : b.total_calls ≡ 2 * m

apply-Calm :
    (c : CircuitBreakerConfig) (m : ℕ) (b : CircuitBreaker)
    → Calm c m b
    → Calm c (suc m) (apply b succeeding)
unfolding apply
apply-Calm c m b k = ground arith

repeat-Calm : (c : CircuitBreakerConfig) (t m : ℕ) → Calm c m (repeat m succeeding (new c t))
unfolding new
repeat-Calm c t zero = ground arith
repeat-Calm c t (suc m) = apply-Calm c m (repeat m succeeding (new c t)) (repeat-Calm c t m)

abbrev tripped : CircuitBreakerConfig → ℕ → ℕ → Bool
tripped c m zero = false
tripped c m (suc k) =
    leb c.failure_threshold (suc k) || leb (c.rate_num * (2 * m + suc k)) (suc k * c.rate_den)

record Failing (c : CircuitBreakerConfig) (m k : ℕ) (b : CircuitBreaker) : Type 0 where
  same : b.config ≡ c
  failures : b.failure_count ≡ k
  total : b.total_failures ≡ k
  calls : b.total_calls ≡ 2 * m + k
  outcome : b.state ≡ (if tripped c m k then opened else closed)

-- Once the thresholds are reached they stay reached.
tripped-suc :
    (c : CircuitBreakerConfig) (m k : ℕ)
    → c.rate_num ≤ c.rate_den
    → tripped c m k ≡ true
    → tripped c m (suc k) ≡ true
tripped-suc c m zero h e = cc
tripped-suc c m (suc k) h e = ground arith

apply-Failing :
    (c : CircuitBreakerConfig) (m k now : ℕ) (b : CircuitBreaker)
    → c.rate_num ≤ c.rate_den
    → Failing c m k b
    → Failing c m (suc k) (apply b (failing now))
unfolding apply
apply-Failing c m k now b h f = elim (Bool-cases (tripped c m k)) [
  | inl e ↦ record {
    same = ground arith;
    failures = ground arith;
    total = ground arith;
    calls = ground arith;
    outcome = rw (tripped-suc c m k h e) (ground arith);
  }
  | inr e ↦ record {
    same = ground arith;
    failures = ground arith;
    total = ground arith;
    calls = ground arith;
    outcome = ground arith;
  }
]

repeat-Failing :
    (c : CircuitBreakerConfig) (t m k now : ℕ)
    → c.rate_num ≤ c.rate_den
    → Failing c m k (repeat k (failing now) (repeat m succeeding (new c t)))
repeat-Failing c t m zero now h = let calm = repeat-Calm c t m in ground arith
repeat-Failing c t m (suc k) now h =
    apply-Failing c m k now (repeat k (failing now) (repeat m succeeding (new c t))) h
      (repeat-Failing c t m k now h)

-- After m successes of a new breaker, k + 1 failures in a row open it exactly if k + 1 reaches the
-- failure threshold, or k + 1 in 2 m + k + 1 calls reaches the error rate: each success of a closed
-- breaker is counted as two calls. (The threshold on the rate is at most 1.)
pub opens_after_failures :
    (c : CircuitBreakerConfig) (t m k now : ℕ)
    → c.rate_num ≤ c.rate_den
    → (repeat (suc k) (failing now) (repeat m succeeding (new c t))).state ≡ (
        if leb c.failure_threshold (suc k)
          || leb (c.rate_num * (2 * m + suc k)) (suc k * c.rate_den)
        then opened
        else closed)
opens_after_failures c t m k now h = (repeat-Failing c t m (suc k) now h).outcome

-- A new breaker opens at its first failure, whatever its failure threshold, since one failure in
-- one call is an error rate of 1. (The threshold on the rate is at most 1.)
pub opens_at_first_failure :
    (c : CircuitBreakerConfig) (t now : ℕ)
    → c.rate_num ≤ c.rate_den
    → (run (new c t) (failing now ∷ [])).state ≡ opened
unfolding run apply new
opens_at_first_failure c t now h = ground arith
