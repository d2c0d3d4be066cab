-- ===== src/CircuitBreaker/Counters.antt =====
-- What the counters of a breaker say of each other, in every order of events.
use ninai.Base.{List, [], arith, max, none, ℕ, ◌<◌, ◌∷◌, ◌≡◌, ◌≢◌, ◌≤◌}
use ninai.CircuitBreaker.{
  CircuitBreaker, CircuitBreakerConfig, Event, apply, entering, failing, half_open, new, opened,
  resetting, run, succeeding,
}

pub record IsValid (b : CircuitBreaker) : Type 0 where
  pub consecutive : b.failure_count ≤ b.total_failures
  pub counted : b.total_failures ≤ b.total_calls
  pub dated : b.state ≡ opened → b.last_failure_time ≢ none
  pub probing : b.state ≡ half_open → b.success_count < max b.config.success_threshold 1

new-IsValid : (c : CircuitBreakerConfig) (now : ℕ) → IsValid (new c now)
unfolding new
new-IsValid c now = ground arith

apply-IsValid : (b : CircuitBreaker) (e : Event) → IsValid b → IsValid (apply b e)
unfolding apply
apply-IsValid b (entering now) v = ground arith
apply-IsValid b succeeding v = ground arith
apply-IsValid b (failing now) v = ground arith
apply-IsValid b (resetting now) v = ground arith

run_from-IsValid : (b : CircuitBreaker) (es : List Event) → IsValid b → IsValid (run b es)
unfolding run
run_from-IsValid b [] v = v
run_from-IsValid b (e ∷ es) v = run_from-IsValid (apply b e) es (apply-IsValid b e v)

-- In every order of entries, successes, failures and resets of a new breaker: the failures in a row
-- are at most the failures, which are at most the calls; an open breaker has the time of a failure;
-- and a half-open one has fewer successes than close it.
pub run-IsValid :
    (c : CircuitBreakerConfig) (now : ℕ) (es : List Event) → IsValid (run (new c now) es)
run-IsValid c now es = run_from-IsValid (new c now) es (new-IsValid c now)
