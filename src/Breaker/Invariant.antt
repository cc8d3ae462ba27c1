-- ===== src/Breaker/Invariant.antt =====
-- circuitbreaker.go: what holds of a breaker between two calls, with its options left alone.
use r8e.Prelude.{ℕ, ◌≤◌, ◌<◌, ◌≡◌, ◌≢◌, true, List, [], ◌∷◌, max, arith}
use r8e.Prelude.Float.{Float}
use r8e.Breaker.Options.{CircuitBreakerOption}
use r8e.Breaker.State.{
  state_closed, state_half_open, CallInput, CircuitBreaker, new_circuit_breaker,
  bump_recovery_attempt_locked, release_probe,
}
use r8e.Breaker.{allow, record_outcome}

module _ (fl : Float) where
  open fl use {Carrier, le, of_int}

  -- A call of Allow, or of one of the Record methods.
  pub data Call : Type 0 where
    admits : ℕ → Carrier → Call
    records : CallInput → ℕ → Call

  unfoldable pub step : CircuitBreaker fl → Call → CircuitBreaker fl
  step cb (admits now sample) = (allow fl cb now sample).0
  step cb (records input now) = (record_outcome fl cb input now).0

  unfoldable pub run : CircuitBreaker fl → List Call → CircuitBreaker fl
  unfolding step
  run cb [] = cb
  run cb (c ∷ cs) = run (step cb c) cs

  pub record Inv (cb : CircuitBreaker fl) : Type 0 where
    -- The count of probes in flight: a probe that is admitted adds one and a recorded outcome takes one away,
    -- also that of an earlier call. It is capped, and zero outside half-open.
    pub in_flight_capped : cb.half_open_in_flight ≤ max 1 cb.cfg.half_open_max_attempts
    pub in_flight_idle : cb.state ≢ state_half_open → cb.half_open_in_flight ≡ 0
    pub successes_below : cb.half_open_successes < max 1 cb.cfg.half_open_max_attempts
    pub successes_idle : cb.state ≢ state_half_open → cb.half_open_successes ≡ 0
    pub closed_below : cb.state ≡ state_closed → cb.failure_count < max 1 cb.cfg.failure_threshold
    pub closed_reset : cb.state ≡ state_closed → cb.recovery_attempt ≡ 0
    pub backoff_off :
        le cb.cfg.recovery_backoff_multiplier (of_int 0) ≡ true → cb.recovery_attempt ≡ 0

  pub new_circuit_breaker-Inv :
      (opts : List (CircuitBreakerOption fl)) → Inv (new_circuit_breaker fl opts)
  unfolding new_circuit_breaker
  new_circuit_breaker-Inv opts = ground arith

  allow-Inv :
      (cb : CircuitBreaker fl) (now : ℕ) (sample : Carrier)
      → Inv cb
      → Inv (allow fl cb now sample).0
  unfolding allow
  allow-Inv cb now sample v = ground arith

  record_outcome-Inv :
      (cb : CircuitBreaker fl) (input : CallInput) (now : ℕ)
      → Inv cb
      → Inv (record_outcome fl cb input now).0
  unfolding record_outcome bump_recovery_attempt_locked release_probe
  record_outcome-Inv cb input now v = ground arith

  pub step-Inv : (cb : CircuitBreaker fl) (c : Call) → Inv cb → Inv (step cb c)
  unfolding step
  step-Inv cb (admits now sample) v = allow-Inv cb now sample v
  step-Inv cb (records input now) v = record_outcome-Inv cb input now v

  -- After any calls of Allow and the Record methods on a breaker for which this holds: the breaker's count
  -- of probes in flight is at most HalfOpenMaxAttempts, or one, and zero outside half-open; its count of
  -- successful probes is lower than that, and zero outside half-open as well; a closed breaker counts fewer failures than FailureThreshold, or none, and has no
  -- backoff; and without a multiplier there is no backoff.
  pub run-Inv : (cb : CircuitBreaker fl) (cs : List Call) → Inv cb → Inv (run cb cs)
  unfolding run
  run-Inv cb [] v = v
  run-Inv cb (c ∷ cs) v = run-Inv (step cb c) cs (step-Inv cb c v)
