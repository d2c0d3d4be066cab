-- ===== src/CircuitBreaker/Recovery.antt =====
-- How long an open breaker refuses calls, and what closes it.
use ninai.Base.{
  All, Exception, List, Outcome, [], arith, circuit_open, if◌then◌else◌, leb, max, ok, raise, refl,
  some, suc, zero, ℕ, ◌+◌, ◌<◌, ◌∷◌, ◌≡◌, ◌≤◌,
}
use ninai.CircuitBreaker.{
  CircuitBreaker, CircuitBreakerConfig, Event, apply, call, closed, enter, entering, failing,
  half_open, microseconds, on_failure, opened, resetting, run, should_attempt_recovery, succeeding,
}

abbrev admits : Outcome CircuitBreaker → ℕ
admits (ok b) = 1
admits (raise e) = 0

-- How many entries of a run are let through.
abbrev pub admitted : CircuitBreaker → List Event → ℕ
admitted b [] = 0
admitted b (entering now ∷ es) = admits (enter now b) + admitted (apply b (entering now)) es
admitted b (e ∷ es) = admitted (apply b e) es

-- An event after the failure at `last` and before the recovery time, other than a reset.
abbrev pub Within : ℕ → ℕ → Event → Type 0
Within last until (entering now) = now < until
Within last until succeeding = Unit
Within last until (failing now) = last ≤ now
Within last until (resetting now) = ⊥

record IsTripped (last : ℕ) (until : ℕ) (b : CircuitBreaker) : Type 0 where
  is_open : b.state ≡ opened
  failed_at : (l : ℕ) × (b.last_failure_time ≡ some l) × (last ≤ l)
  timeout : last + microseconds b.config.recovery_timeout_seconds ≡ until

enter_refused :
    (last until now : ℕ) (b : CircuitBreaker)
    → IsTripped last until b
    → now < until
    → enter now b ≡ raise circuit_open
unfolding enter should_attempt_recovery
enter_refused last until now b t h = ground arith

apply-IsTripped :
    (last until : ℕ) (b : CircuitBreaker) (e : Event)
    → Within last until e
    → IsTripped last until b
    → IsTripped last until (apply b e)
unfolding apply
apply-IsTripped last until b (entering now) w t = rw (enter_refused last until now b t w) t
apply-IsTripped last until b succeeding w t = ground arith
apply-IsTripped last until b (failing now) w t = record {
  is_open = ground arith;
  failed_at = (now, ground arith, w);
  timeout = ground arith;
}
apply-IsTripped last until b (resetting now) w t = absurd w

run-IsTripped :
    (last until : ℕ) (b : CircuitBreaker) (es : List Event)
    → All (Within last until) es
    → IsTripped last until b
    → (admitted b es ≡ 0) × IsTripped last until (run b es)
unfolding run
run-IsTripped last until b [] w t = (refl, t)
run-IsTripped last until b (entering now ∷ es) w t =
    let rest =
      run-IsTripped last until (apply b (entering now)) es w.1
        (apply-IsTripped last until b (entering now) w.0 t) in
    (rw (enter_refused last until now b t w.0) (omega (arith, rest.0)), rest.1)
run-IsTripped last until b (e ∷ es) w t =
    run-IsTripped last until (apply b e) es w.1 (apply-IsTripped last until b e w.0 t)

-- While a breaker is open after a failure at `last`, and until its recovery time has passed, no
-- call is let through and it stays open, whatever the calls in flight report meanwhile.
pub refuses_until_recovery :
    (last : ℕ) (b : CircuitBreaker) (es : List Event)
    → b.state ≡ opened
    → b.last_failure_time ≡ some last
    → All (Within last (last + microseconds b.config.recovery_timeout_seconds)) es
    → (admitted b es ≡ 0) × ((run b es).state ≡ opened)
refuses_until_recovery last b es o f w =
    let r =
      run-IsTripped last (last + microseconds b.config.recovery_timeout_seconds) b es w
        (record { is_open = o; failed_at = (last, f, omega arith); timeout = refl }) in
    (r.0, r.1.is_open)

-- A call that probes an open breaker after its recovery time, alone, and fails: the caller gets the
-- function's exception, and calls are refused again for a whole recovery time from that failure.
pub failed_probe_reopens :
    {A : Type 0} (e : Exception) (last start finish now : ℕ) (b : CircuitBreaker)
    → b.state ≡ opened
    → b.last_failure_time ≡ some last
    → last + microseconds b.config.recovery_timeout_seconds ≤ start
    → now < finish + microseconds b.config.recovery_timeout_seconds
    → let (r, b') = call {A = A} (raise e) [] start finish b in
      (r ≡ raise e) × (b'.state ≡ opened) × (enter now b' ≡ raise circuit_open)
unfolding call run on_failure enter should_attempt_recovery
failed_probe_reopens e last start finish now b o f h k = (ground arith, ground arith, ground arith)

-- The same event, `n` times.
abbrev pub repeat : ℕ → Event → CircuitBreaker → CircuitBreaker
repeat zero e b = b
repeat (suc n) e b = apply (repeat n e b) e

record Probing (c : CircuitBreakerConfig) (n : ℕ) (b : CircuitBreaker) : Type 0 where
  same : b.config ≡ c
  probed : b.state ≡ (if leb (max c.success_threshold 1) n then closed else half_open)
  so_far : b.state ≡ half_open → b.success_count ≡ n

apply-Probing :
    (c : CircuitBreakerConfig) (n : ℕ) (b : CircuitBreaker)
    → Probing c n b
    → Probing c (suc n) (apply b succeeding)
unfolding apply
apply-Probing c n b p = record { same = ground arith; probed = ground arith; so_far = ground arith }

repeat-Probing :
    (n : ℕ) (b : CircuitBreaker)
    → b.state ≡ half_open
    → b.success_count ≡ 0
    → Probing b.config n (repeat n succeeding b)
repeat-Probing zero b h z = record { same = refl; probed = ground arith; so_far = λ _. z }
repeat-Probing (suc n) b h z =
    apply-Probing b.config n (repeat n succeeding b) (repeat-Probing n b h z)

-- From the moment that a probe is let through, n successes in a row close the breaker exactly if
-- they reach the success threshold (one success, where the threshold is 0).
pub closes_after_successes :
    (n now : ℕ) (b b' : CircuitBreaker)
    → b.state ≡ opened
    → enter now b ≡ ok b'
    → (repeat n succeeding b').state
      ≡ (if leb (max b.config.success_threshold 1) n then closed else half_open)
unfolding enter should_attempt_recovery
closes_after_successes n now b b' o h =
    let same : b'.config ≡ b.config = ground arith in
    rw (← same) ((repeat-Probing n b' (ground arith) (ground arith)).probed)
