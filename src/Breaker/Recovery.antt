-- ===== src/Breaker/Recovery.antt =====
-- circuitbreaker.go: what an open breaker needs before it serves again.
use r8e.Prelude.{
  ℕ, ◌+◌, ◌-◌, ◌≤◌, ◌<◌, ◌≡◌, not, ◌&&◌, ◌||◌, List, [], ◌∷◌, none, some, ◌⊎◌, max, arith, ltb,
  if◌then◌else◌,
}
use r8e.Prelude.Float.{Float}
use r8e.Breaker.Options.{Config}
use r8e.Breaker.State.{
  CircuitState, state_closed, state_open, state_half_open, on_circuit_half_open, err_circuit_open,
  current_recovery_timeout, CircuitBreaker, bump_recovery_attempt_locked, release_probe,
}
use r8e.Breaker.{allow, record_outcome}
use r8e.Breaker.Invariant.{Call, admits, records, step, run}

module _ (fl : Float) where
  open fl use {Carrier, le, of_int}

  cfg-step : (cb : CircuitBreaker fl) (c : Call fl) → (step fl cb c).cfg ≡ cb.cfg
  unfolding step allow record_outcome bump_recovery_attempt_locked release_probe
  cfg-step cb (admits now sample) = ground arith
  cfg-step cb (records input now) = ground arith

  -- One for a recorded call that neither failed nor was slow.
  abbrev pub healthy : Config fl → Call fl → ℕ
  healthy cfg (admits now sample) = 0
  healthy cfg (records input now) =
      if input.failed
        || (ltb 0 cfg.slow_call_duration
            && not (le cfg.slow_call_rate_threshold (of_int 0))
            && ltb cfg.slow_call_duration input.elapsed)
      then 0
      else 1

  pub healthy_calls : Config fl → List (Call fl) → ℕ
  healthy_calls cfg [] = 0
  healthy_calls cfg (c ∷ cs) = healthy cfg c + healthy_calls cfg cs

  -- The healthy probes that are still missing.
  abbrev missing_in : CircuitState → ℕ → ℕ → ℕ
  missing_in state_open attempts successes = max 1 attempts
  missing_in state_half_open attempts successes = max 1 attempts - successes
  missing_in _ attempts successes = 0

  abbrev missing : CircuitBreaker fl → ℕ
  missing cb = missing_in cb.state cb.cfg.half_open_max_attempts cb.half_open_successes

  missing-step :
      (cb : CircuitBreaker fl) (c : Call fl)
      → missing cb ≤ healthy cb.cfg c + missing (step fl cb c)
  unfolding step allow record_outcome bump_recovery_attempt_locked release_probe
  missing-step cb (admits now sample) = ground arith
  missing-step cb (records input now) = ground arith

  missing-run :
      (cb : CircuitBreaker fl) (cs : List (Call fl))
      → missing cb ≤ healthy_calls cb.cfg cs + missing (run fl cb cs)
  unfolding run healthy_calls
  missing-run cb [] = omega arith
  missing-run cb (c ∷ cs) =
      ground (arith, cfg-step cb c, missing-step cb c, missing-run (step fl cb c) cs)

  -- Whatever calls take an open breaker to closed, at least HalfOpenMaxAttempts of them, and one in any
  -- case, recorded a call that neither failed nor was slow.
  pub closed_needs_healthy :
      (cb : CircuitBreaker fl) (cs : List (Call fl))
      → cb.state ≡ state_open
      → (run fl cb cs).state ≡ state_closed
      → max 1 cb.cfg.half_open_max_attempts ≤ healthy_calls cb.cfg cs
  closed_needs_healthy cb cs o c = ground (arith, missing-run cb cs)

  -- An open breaker either is within its recovery wait, refuses the call and stays as it is, or is past
  -- it, admits the call, and is half-open with that call as the one probe in flight.
  pub allow_of_open :
      (cb : CircuitBreaker fl) (now : ℕ) (sample : Carrier)
      → cb.state ≡ state_open
      → ((now - cb.last_failure ≤ current_recovery_timeout fl cb)
          × (allow fl cb now sample ≡ (cb, some err_circuit_open, [])))
        ⊎ ((current_recovery_timeout fl cb < now - cb.last_failure)
            × ((allow fl cb now sample).0.state ≡ state_half_open)
            × ((allow fl cb now sample).0.half_open_in_flight ≡ 1)
            × ((allow fl cb now sample).1 ≡ none)
            × ((allow fl cb now sample).2 ≡ on_circuit_half_open ∷ []))
  unfolding allow
  allow_of_open cb now sample o = ground arith
