-- ===== src/Breaker/Diagram.antt =====
-- circuitbreaker.go: the transitions that Allow and the Record methods make, and their hooks.
use r8e.Prelude.{ℕ, List, [], ◌∷◌, arith}
use r8e.Prelude.Float.{Float}
use r8e.Breaker.State.{
  CircuitState, state_closed, state_open, state_half_open, state_ramping, Hook, on_circuit_open,
  on_circuit_close, on_circuit_half_open, on_circuit_ramping, on_slow_call_rate_exceeded, CallInput,
  CircuitBreaker, bump_recovery_attempt_locked, release_probe,
}
use r8e.Breaker.{allow, record_outcome}

-- The edges that an admission takes, each with its hooks.
pub data AllowEdge : CircuitState → List Hook → CircuitState → Type 0 where
  stay : {s : CircuitState} → AllowEdge s [] s
  probe : AllowEdge state_open (on_circuit_half_open ∷ []) state_half_open
  ramped : AllowEdge state_ramping (on_circuit_close ∷ []) state_closed

-- The states in which an unhealthy outcome opens the breaker.
pub data Trips : CircuitState → Type 0 where
  closed_trips : Trips state_closed
  half_open_trips : Trips state_half_open
  ramping_trips : Trips state_ramping

-- The edges that a recorded outcome takes.
pub data RecordEdge : CircuitState → List Hook → CircuitState → Type 0 where
  stay : {s : CircuitState} → RecordEdge s [] s
  trip : {s : CircuitState} → Trips s → RecordEdge s (on_circuit_open ∷ []) state_open
  trip_slow :
      {s : CircuitState}
      → Trips s
      → RecordEdge s (on_circuit_open ∷ on_slow_call_rate_exceeded ∷ []) state_open
  ramp : RecordEdge state_half_open (on_circuit_ramping ∷ []) state_ramping
  recover : RecordEdge state_half_open (on_circuit_close ∷ []) state_closed

module _ (fl : Float) where
  open fl use {Carrier}

  -- Allow keeps the state and fires no hook, or takes an open breaker to half-open, or a ramping one to
  -- closed, and fires just the hook of that edge.
  pub allow-AllowEdge :
      (cb : CircuitBreaker fl) (now : ℕ) (sample : Carrier)
      → AllowEdge cb.state (allow fl cb now sample).2 (allow fl cb now sample).0.state
  unfolding allow
  allow-AllowEdge cb now sample = grind (arith, AllowEdge.stay, probe, ramped)

  -- Recording keeps the state and fires no hook, or opens a breaker that is not open already, or takes a
  -- half-open one to ramping or closed, and fires just the hooks of that edge.
  pub record_outcome-RecordEdge :
      (cb : CircuitBreaker fl) (input : CallInput) (now : ℕ)
      → RecordEdge cb.state
          (record_outcome fl cb input now).1
          (record_outcome fl cb input now).0.state
  unfolding record_outcome bump_recovery_attempt_locked release_probe
  record_outcome-RecordEdge cb input now = grind (
    arith, RecordEdge.stay, trip, trip_slow, ramp, recover, closed_trips, half_open_trips,
    ramping_trips,
  )
