-- ===== src/CircuitBreaker/Tests.antt =====
-- Tests of backend/app/core/circuit_breaker.py.
use ninai.Base.{List, [], arith, refl, some, ◌∷◌, ◌≡◌}
use ninai.CircuitBreaker.{
  CircuitBreaker, CircuitBreakerConfig, Event, apply, closed, default_config, enter, entering,
  failing, half_open, new, opened, run, should_attempt_recovery, succeeding,
}
use ninai.CircuitBreaker.Counters.{IsValid, run-IsValid}
use ninai.CircuitBreaker.Recovery.{admitted, closes_after_successes, refuses_until_recovery, repeat}
use ninai.CircuitBreaker.Registry.{Registry}
use ninai.CircuitBreaker.Tripping.{opens_after_failures}

abbrev events : List Event
events = succeeding ∷ failing 5 ∷ failing 9 ∷ entering 10 ∷ entering 60000010 ∷ succeeding ∷ []

abbrev config : CircuitBreakerConfig
config = record default_config { rate_num = 2; rate_den = 3 }

abbrev tripped_at_5 : CircuitBreaker
tripped_at_5 = record (new config 0) {
  state = opened;
  failure_count = 5;
  last_failure_time = some 5;
  total_calls = 5;
  total_failures = 5;
}

run-events : (run (new default_config 0) events).state ≡ half_open
unfolding run apply new should_attempt_recovery
run-events = refl

run-IsValid_example : IsValid (run (new default_config 0) events)
run-IsValid_example = run-IsValid default_config 0 events

refuses_until_recovery_example :
    (admitted tripped_at_5 (entering 7 ∷ failing 8 ∷ succeeding ∷ entering 60000004 ∷ []) ≡ 0)
    × ((run tripped_at_5 (entering 7 ∷ failing 8 ∷ succeeding ∷ entering 60000004 ∷ [])).state
        ≡ opened)
unfolding new
refuses_until_recovery_example =
    refuses_until_recovery 5 tripped_at_5
      (entering 7 ∷ failing 8 ∷ succeeding ∷ entering 60000004 ∷ []) refl refl (omega arith)

abbrev probing_again : CircuitBreaker
probing_again = record tripped_at_5 { state = half_open; success_count = 0 }

closes_after_successes_example : (repeat 2 succeeding probing_again).state ≡ closed
unfolding new enter should_attempt_recovery
closes_after_successes_example =
    closes_after_successes 2 60000005 tripped_at_5 probing_again refl refl

opens_after_failures_example :
    (repeat 3 (failing 7) (repeat 1 succeeding (new default_config 0))).state ≡ opened
opens_after_failures_example = opens_after_failures default_config 0 1 2 7 (omega arith)

abbrev registry : Registry
registry = ("ollama", new default_config 3) ∷ []
