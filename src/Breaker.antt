-- ===== src/Breaker.antt =====
-- circuitbreaker.go: the circuit breaker. A method returns the new breaker, its error and the hooks
-- that it fires after it has released the mutex. The value that the sampler draws is the argument
-- `sample`, which only a ramping breaker reads.
pub mod Options
pub mod Window
pub mod State
pub mod Diagram
pub mod Invariant
pub mod Recovery
pub mod Trips
pub mod Verdicts
pub mod Ring
pub mod History
pub mod Limits
pub mod Configured
use r8e.Prelude.{
  ℕ, ◌+◌, ◌-◌, Bool, true, false, ◌&&◌, Option, none, some, List, [], ◌∷◌, leb, ltb, if◌then◌else◌,
}
use r8e.Prelude.Float.{Float}
use Window.{observe, tripped, fraction}
use State.{
  CircuitState, state_closed, state_open, state_half_open, state_ramping, Hook, on_circuit_open,
  on_circuit_close, on_circuit_half_open, on_circuit_ramping, Error, err_circuit_open,
  err_circuit_ramping, CallInput, CallOutcome, CircuitBreaker, current_recovery_timeout,
  slow_call_enabled, ramp_enabled, ramp_fraction_at, open_locked, close_locked, enter_ramp_locked,
  bump_recovery_attempt_locked, release_probe, opened_by_slow_call,
}

module _ (fl : Float) where
  open fl use {Carrier, le, of_int}

  -- Admission: the breaker, the error and the hooks.
  allow_open : CircuitBreaker fl → ℕ → CircuitBreaker fl × Option Error × List Hook
  unfolding current_recovery_timeout
  allow_open cb now =
      if leb (now - cb.last_failure) (current_recovery_timeout fl cb)
      then (cb, some err_circuit_open, [])
      else (
        record cb { state = state_half_open; half_open_successes = 0; half_open_in_flight = 1 },
        none,
        on_circuit_half_open ∷ [],
      )

  allow_half_open : CircuitBreaker fl → CircuitBreaker fl × Option Error × List Hook
  allow_half_open cb =
      if leb cb.cfg.half_open_max_attempts cb.half_open_in_flight
      then (cb, some err_circuit_open, [])
      else (record cb { half_open_in_flight = cb.half_open_in_flight + 1 }, none, [])

  allow_ramping : CircuitBreaker fl → ℕ → Carrier → CircuitBreaker fl × Option Error × List Hook
  unfolding close_locked ramp_fraction_at
  allow_ramping cb now sample =
      let elapsed = now - cb.ramp_start in
      if leb cb.cfg.ramp_recovery_window elapsed
      then (close_locked fl cb, none, on_circuit_close ∷ [])
      else if le (ramp_fraction_at fl cb elapsed) sample
      then (cb, some err_circuit_ramping, [])
      else (cb, none, [])

  allow_in :
      CircuitState → CircuitBreaker fl → ℕ → Carrier → CircuitBreaker fl × Option Error × List Hook
  unfolding allow_open allow_half_open allow_ramping
  allow_in state_open cb now sample = allow_open cb now
  allow_in state_half_open cb now sample = allow_half_open cb
  allow_in state_ramping cb now sample = allow_ramping cb now sample
  allow_in state_closed cb now sample = (cb, none, [])

  unfoldable pub allow :
      CircuitBreaker fl → ℕ → Carrier → CircuitBreaker fl × Option Error × List Hook
  unfolding allow_in
  allow cb now sample = allow_in cb.state cb now sample

  -- Recording: the breaker and the hooks.
  slow_tripped : CircuitBreaker fl → Bool
  unfolding slow_call_enabled tripped
  slow_tripped cb =
      slow_call_enabled fl cb
      && tripped fl cb.slow_win cb.cfg.slow_call_min_calls cb.cfg.slow_call_rate_threshold

  -- What `recordClosed` does after the count of failures did not trip.
  settle_closed : CircuitBreaker fl → CallOutcome → ℕ → CircuitBreaker fl × List Hook
  unfolding open_locked slow_tripped
  settle_closed cb out now =
      if slow_tripped cb
      then (open_locked fl (record cb { recovery_attempt = 0 }) now, opened_by_slow_call fl)
      else (if out.failed then record cb { last_failure = now } else cb, [])

  record_closed : CircuitBreaker fl → CallOutcome → ℕ → CircuitBreaker fl × List Hook
  unfolding open_locked settle_closed
  record_closed cb out now =
      if out.failed
      then (let counted = record cb { failure_count = cb.failure_count + 1 } in
          if leb cb.cfg.failure_threshold counted.failure_count
          then (open_locked fl (record counted { recovery_attempt = 0 }) now, on_circuit_open ∷ [])
          else settle_closed counted out now)
      else settle_closed (record cb { failure_count = 0 }) out now

  -- An unhealthy outcome of a probe or of a call in the ramp, if it is one.
  reopened : CircuitBreaker fl → CallOutcome → ℕ → Option (CircuitBreaker fl × List Hook)
  unfolding open_locked bump_recovery_attempt_locked
  reopened cb out now =
      if out.failed
      then some (open_locked fl (bump_recovery_attempt_locked fl cb) now, on_circuit_open ∷ [])
      else if out.slow
      then some (open_locked fl (bump_recovery_attempt_locked fl cb) now, opened_by_slow_call fl)
      else none

  probe_succeeded : CircuitBreaker fl → ℕ → CircuitBreaker fl × List Hook
  unfolding ramp_enabled enter_ramp_locked close_locked
  probe_succeeded cb now =
      let counted = record cb { half_open_successes = cb.half_open_successes + 1 } in
      if ltb counted.half_open_successes cb.cfg.half_open_max_attempts
      then (counted, [])
      else if ramp_enabled fl cb
      then (enter_ramp_locked fl counted now, on_circuit_ramping ∷ [])
      else (close_locked fl counted, on_circuit_close ∷ [])

  record_half_open : CircuitBreaker fl → CallOutcome → ℕ → CircuitBreaker fl × List Hook
  unfolding release_probe reopened probe_succeeded
  record_half_open cb out now =
      let released = release_probe fl cb in
      elim (reopened released out now) [ some r ↦ r | none ↦ probe_succeeded released now ]

  record_ramping : CircuitBreaker fl → CallOutcome → ℕ → CircuitBreaker fl × List Hook
  unfolding reopened
  record_ramping cb out now = elim (reopened cb out now) [ some r ↦ r | none ↦ (cb, []) ]

  record_in : CircuitState → CircuitBreaker fl → CallOutcome → ℕ → CircuitBreaker fl × List Hook
  unfolding record_closed record_half_open record_ramping
  record_in state_closed cb out now = record_closed cb out now
  record_in state_half_open cb out now = record_half_open cb out now
  record_in state_ramping cb out now = record_ramping cb out now
  record_in state_open cb out now =
      (if out.failed then record cb { last_failure = now } else cb, [])

  -- The verdict of a call, and the breaker whose window has seen it.
  classify : CircuitBreaker fl → CallInput → CircuitBreaker fl × CallOutcome
  unfolding slow_call_enabled
  classify cb input =
      if slow_call_enabled fl cb
      then (let slow = ltb cb.cfg.slow_call_duration input.elapsed in
          (
            record cb { slow_win = observe cb.slow_win slow cb.cfg.slow_call_window },
            record { failed = input.failed; slow = slow },
          ))
      else (cb, record { failed = input.failed; slow = false })

  unfoldable pub record_outcome : CircuitBreaker fl → CallInput → ℕ → CircuitBreaker fl × List Hook
  unfolding classify record_in
  record_outcome cb input now =
      let (cb', out) = classify cb input in record_in cb'.state cb' out now

  unfoldable pub record_success : CircuitBreaker fl → ℕ → CircuitBreaker fl × List Hook
  unfolding record_outcome
  record_success cb now = record_outcome cb (record { elapsed = 0; failed = false }) now

  unfoldable pub record_failure : CircuitBreaker fl → ℕ → CircuitBreaker fl × List Hook
  unfolding record_outcome
  record_failure cb now = record_outcome cb (record { elapsed = 0; failed = true }) now

  unfoldable pub slow_call_fraction : CircuitBreaker fl → Carrier
  unfolding slow_call_enabled fraction
  slow_call_fraction cb = if slow_call_enabled fl cb then fraction fl cb.slow_win else of_int 0

  abbrev is_ramping : CircuitState → Bool
  is_ramping state_ramping = true
  is_ramping _ = false

  unfoldable pub ramp_recovery_fraction : CircuitBreaker fl → ℕ → Carrier
  unfolding ramp_fraction_at
  ramp_recovery_fraction cb now =
      if is_ramping cb.state then ramp_fraction_at fl cb (now - cb.ramp_start) else of_int 0
