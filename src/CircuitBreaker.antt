-- ===== src/CircuitBreaker.antt =====
-- backend/app/core/circuit_breaker.py: one breaker, its three callbacks and the call that uses
-- them. Time is in microseconds, the resolution of `datetime`; the lock makes each of `enter`,
-- `on_success` and `on_failure` one step.
pub mod Registry
pub mod Counters
pub mod Recovery
pub mod Tripping
mod Tests
use ninai.Base.{
  Bool, List, Option, Outcome, [], circuit_open, if◌then◌else◌, leb, max, none, ok, raise, some,
  true, ℕ, ◌*◌, ◌+◌, ◌-◌, ◌/◌, ◌||◌, ◌∷◌,
}

-- `opened` is CircuitState.OPEN (the source's word is reserved here).
pub data CircuitState : Type 0 where
  closed opened half_open : CircuitState

-- The threshold on the error rate, a float in the source, is the fraction `rate_num / rate_den`.
pub record CircuitBreakerConfig : Type 0 where
  pub failure_threshold : ℕ
  pub recovery_timeout_seconds : ℕ
  pub success_threshold : ℕ
  pub rate_num : ℕ
  pub rate_den : ℕ

abbrev pub default_config : CircuitBreakerConfig
default_config = record {
  failure_threshold = 5;
  recovery_timeout_seconds = 60;
  success_threshold = 2;
  rate_num = 1;
  rate_den = 2;
}

pub record CircuitBreaker : Type 0 where
  pub config : CircuitBreakerConfig
  pub state : CircuitState
  pub failure_count : ℕ
  pub success_count : ℕ
  pub last_failure_time : Option ℕ
  pub total_calls : ℕ
  pub total_failures : ℕ
  pub state_changed_at : ℕ

-- CircuitBreaker.__init__
unfoldable pub new : CircuitBreakerConfig → ℕ → CircuitBreaker
new config now = record {
  config = config;
  state = closed;
  failure_count = 0;
  success_count = 0;
  last_failure_time = none;
  total_calls = 0;
  total_failures = 0;
  state_changed_at = now;
}

abbrev pub microseconds : ℕ → ℕ
microseconds seconds = seconds * 1000000

-- `now - last_failure_time >= recovery_timeout_seconds`
unfoldable pub should_attempt_recovery : CircuitBreaker → ℕ → Bool
should_attempt_recovery b now = elim b.last_failure_time [
  | none ↦ true
  | some last ↦ leb (last + microseconds b.config.recovery_timeout_seconds) now
]

-- `int(max(0, timeout - elapsed))`: the subtraction stops at 0 as `max` does.
unfoldable pub time_until_recovery : CircuitBreaker → ℕ → ℕ
time_until_recovery b now = elim b.last_failure_time [
  | none ↦ 0
  | some last ↦ (last + microseconds b.config.recovery_timeout_seconds - now) / 1000000
]

-- The guarded section at the head of `call`.
enter_state : CircuitState → ℕ → CircuitBreaker → Outcome CircuitBreaker
unfolding should_attempt_recovery
enter_state opened now b =
    if should_attempt_recovery b now
    then ok (record b { state = half_open; success_count = 0 })
    else raise circuit_open
enter_state s now b = ok b

unfoldable pub enter : ℕ → CircuitBreaker → Outcome CircuitBreaker
unfolding enter_state
enter now b = enter_state b.state now b

success_state : CircuitState → CircuitBreaker → CircuitBreaker
success_state half_open b =
    let n = b.success_count + 1 in
    record b {
      success_count = n;
      state = if leb b.config.success_threshold n then closed else b.state;
    }
success_state closed b = record b { total_calls = b.total_calls + 1 }
success_state opened b = b

unfoldable pub on_success : CircuitBreaker → CircuitBreaker
unfolding success_state
on_success b =
    success_state b.state (record b { failure_count = 0; total_calls = b.total_calls + 1 })

-- `error_rate >= error_rate_threshold`, multiplied out.
abbrev pub rate_reached : CircuitBreaker → Bool
rate_reached b =
    leb (b.config.rate_num * max b.total_calls 1) (b.total_failures * b.config.rate_den)

failure_state : CircuitState → ℕ → CircuitBreaker → CircuitBreaker
failure_state half_open now b = record b { state = opened; state_changed_at = now }
failure_state closed now b =
    if leb b.config.failure_threshold b.failure_count || rate_reached b
    then record b { state = opened; state_changed_at = now }
    else b
failure_state opened now b = b

unfoldable pub on_failure : ℕ → CircuitBreaker → CircuitBreaker
unfolding failure_state
on_failure now b = failure_state b.state now (record b {
  failure_count = b.failure_count + 1;
  total_failures = b.total_failures + 1;
  last_failure_time = some now;
  total_calls = b.total_calls + 1;
})

unfoldable pub reset : ℕ → CircuitBreaker → CircuitBreaker
reset now b = record b {
  state = closed;
  failure_count = 0;
  success_count = 0;
  total_calls = 0;
  total_failures = 0;
  state_changed_at = now;
}

-- What one task does to the shared breaker in one locked section, with the clock it reads. Calls in
-- flight overlap, so any order of these events can occur.
pub data Event : Type 0 where
  entering : ℕ → Event
  succeeding : Event
  failing : ℕ → Event
  resetting : ℕ → Event

-- A refused entry leaves the breaker alone.
abbrev pub or_unchanged : CircuitBreaker → Outcome CircuitBreaker → CircuitBreaker
or_unchanged b (ok b') = b'
or_unchanged b (raise e) = b

unfoldable pub apply : CircuitBreaker → Event → CircuitBreaker
unfolding enter on_success on_failure reset
apply b (entering now) = or_unchanged b (enter now b)
apply b succeeding = on_success b
apply b (failing now) = on_failure now b
apply b (resetting now) = reset now b

unfoldable pub run : CircuitBreaker → List Event → CircuitBreaker
run b [] = b
run b (e ∷ es) = run (apply b e) es

-- `call` with the function's result and the events of other tasks during the await.
after_call : {A : Type 0} → Outcome A → ℕ → CircuitBreaker → Outcome A × CircuitBreaker
after_call (ok a) now b = (ok a, on_success b)
after_call (raise e) now b = (raise e, on_failure now b)

entered :
    {A : Type 0}
    → Outcome CircuitBreaker
    → Outcome A
    → List Event
    → ℕ
    → CircuitBreaker
    → Outcome A × CircuitBreaker
entered (raise e) r meanwhile now b = (raise e, b)
entered (ok b') r meanwhile now b = after_call r now (run b' meanwhile)

unfoldable pub call :
    {A : Type 0} → Outcome A → List Event → ℕ → ℕ → CircuitBreaker → Outcome A × CircuitBreaker
unfolding entered after_call
call r meanwhile start finish b = entered (enter start b) r meanwhile finish b

-- get_status, without the name
pub record Status : Type 0 where
  pub state : CircuitState
  pub failure_count : ℕ
  pub success_count : ℕ
  pub total_calls : ℕ
  pub total_failures : ℕ
  pub time_until_recovery_seconds : Option ℕ

waiting : CircuitState → ℕ → Option ℕ
waiting opened n = some n
waiting s n = none

unfoldable pub get_status : ℕ → CircuitBreaker → Status
unfolding waiting time_until_recovery
get_status now b = record {
  state = b.state;
  failure_count = b.failure_count;
  success_count = b.success_count;
  total_calls = b.total_calls;
  total_failures = b.total_failures;
  time_until_recovery_seconds = waiting b.state (time_until_recovery b now);
}
