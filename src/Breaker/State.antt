-- ===== src/Breaker/State.antt =====
-- circuitbreaker.go: the breaker's state, its waits and curves, and its transitions.
-- Counters are unbounded. The clock is an argument `now`, in nanoseconds, and clock.Since(t) is
-- `now - t`, for a clock that never stands before `t`.
use r8e.Prelude.{
  ℕ, ◌+◌, ◌-◌, ◌*◌, ◌^◌, Bool, ◌&&◌, ◌||◌, List, [], ◌∷◌, leb, ltb, ◌==◌, if◌then◌else◌,
}
use r8e.Prelude.Float.{Float, lt, fmax}
use r8e.Breaker.Options.{
  Config, CircuitBreakerOption, default_circuit_breaker_config, apply_options,
}
use r8e.Breaker.Window.{SlowCallWindow, empty_window}

pub data CircuitState : Type 0 where
  state_closed state_open state_half_open state_ramping : CircuitState

pub data Hook : Type 0 where
  on_circuit_open on_circuit_close on_circuit_half_open on_circuit_ramping
        on_slow_call_rate_exceeded :
      Hook

pub data Error : Type 0 where
  err_circuit_open err_circuit_ramping : Error

pub record CallInput : Type 0 where
  pub elapsed : ℕ
  pub failed : Bool

pub record CallOutcome : Type 0 where
  pub failed : Bool
  pub slow : Bool

-- The bound 9e18 below which a float64 number of nanoseconds converts to an int64.
abbrev pub safe_max : ℕ
safe_max = 9 * 10 ^ 18

module _ (fl : Float) where
  open fl use {Carrier, le, of_int, to_int, mul, div, pow, is_inf}

  pub record CircuitBreaker : Type 0 where
    pub cfg : Config fl
    pub last_failure : ℕ
    pub ramp_start : ℕ
    pub slow_win : SlowCallWindow
    pub failure_count : ℕ
    pub half_open_successes : ℕ
    pub half_open_in_flight : ℕ
    pub recovery_attempt : ℕ
    pub state : CircuitState

  unfoldable pub new_circuit_breaker : List (CircuitBreakerOption fl) → CircuitBreaker
  unfolding apply_options default_circuit_breaker_config
  new_circuit_breaker opts = record {
    cfg = apply_options fl opts (default_circuit_breaker_config fl);
    last_failure = 0;
    ramp_start = 0;
    slow_win = empty_window;
    failure_count = 0;
    half_open_successes = 0;
    half_open_in_flight = 0;
    recovery_attempt = 0;
    state = state_closed;
  }

  abbrev pub positive : Carrier → Bool
  positive f = lt fl (of_int 0) f

  -- RecoveryTimeout × multiplier ^ attempt, in nanoseconds, kept below 2 ^ 63.
  unfoldable pub scaled_timeout : Config fl → ℕ → ℕ
  scaled_timeout cfg attempt =
      let ns =
        mul (of_int cfg.recovery_timeout) (pow cfg.recovery_backoff_multiplier (of_int attempt)) in
      to_int (if lt fl (of_int safe_max) ns || is_inf ns then of_int safe_max else ns)

  unfoldable pub current_recovery_timeout : CircuitBreaker → ℕ
  unfolding scaled_timeout
  current_recovery_timeout cb =
      if le cb.cfg.recovery_backoff_multiplier (of_int 0) || cb.recovery_attempt == 0
      then cb.cfg.recovery_timeout
      else (let d = scaled_timeout cb.cfg cb.recovery_attempt in
          if ltb 0 cb.cfg.recovery_max_backoff && ltb cb.cfg.recovery_max_backoff d
          then cb.cfg.recovery_max_backoff
          else d)

  unfoldable pub reconfigure : CircuitBreaker → List (CircuitBreakerOption fl) → CircuitBreaker
  unfolding apply_options
  reconfigure cb opts =
      let cfg' = apply_options fl opts cb.cfg in
      if le cb.cfg.recovery_backoff_multiplier (of_int 0)
        && positive cfg'.recovery_backoff_multiplier
      then record cb { cfg = cfg'; recovery_attempt = 0 }
      else record cb { cfg = cfg' }

  unfoldable pub slow_call_enabled : CircuitBreaker → Bool
  slow_call_enabled cb = ltb 0 cb.cfg.slow_call_duration && positive cb.cfg.slow_call_rate_threshold

  unfoldable pub ramp_enabled : CircuitBreaker → Bool
  ramp_enabled cb = ltb 0 cb.cfg.ramp_recovery_window

  -- `elapsed` is not negative here, so the clamp of timeFactor to 0 has nothing to do.
  unfoldable pub ramp_fraction : ℕ → ℕ → Carrier → Carrier → Carrier
  ramp_fraction elapsed window aggression initial =
      if leb window elapsed
      then of_int 1
      else (let ratio = div (of_int elapsed) (of_int window) in
          let time_factor = if lt fl ratio (of_int 0) then of_int 0 else ratio in
          let exponent = if positive aggression then div (of_int 1) aggression else of_int 1 in
          fmax fl initial (pow time_factor exponent))

  unfoldable pub ramp_fraction_at : CircuitBreaker → ℕ → Carrier
  unfolding ramp_fraction
  ramp_fraction_at cb elapsed =
      ramp_fraction elapsed cb.cfg.ramp_recovery_window cb.cfg.ramp_aggression
        cb.cfg.ramp_initial_fraction

  -- The transitions.
  unfoldable pub open_locked : CircuitBreaker → ℕ → CircuitBreaker
  open_locked cb now = record cb {
    state = state_open;
    half_open_successes = 0;
    half_open_in_flight = 0;
    last_failure = now;
  }

  unfoldable pub close_locked : CircuitBreaker → CircuitBreaker
  close_locked cb = record cb {
    state = state_closed;
    failure_count = 0;
    half_open_successes = 0;
    half_open_in_flight = 0;
    recovery_attempt = 0;
  }

  unfoldable pub enter_ramp_locked : CircuitBreaker → ℕ → CircuitBreaker
  enter_ramp_locked cb now = record cb {
    state = state_ramping;
    ramp_start = now;
    half_open_successes = 0;
    half_open_in_flight = 0;
  }

  unfoldable pub bump_recovery_attempt_locked : CircuitBreaker → CircuitBreaker
  bump_recovery_attempt_locked cb =
      if positive cb.cfg.recovery_backoff_multiplier
      then record cb { recovery_attempt = cb.recovery_attempt + 1 }
      else cb

  unfoldable pub release_probe : CircuitBreaker → CircuitBreaker
  release_probe cb =
      if ltb 0 cb.half_open_in_flight
      then record cb { half_open_in_flight = cb.half_open_in_flight - 1 }
      else cb

  abbrev pub opened_by_slow_call : List Hook
  opened_by_slow_call = on_circuit_open ∷ on_slow_call_rate_exceeded ∷ []
