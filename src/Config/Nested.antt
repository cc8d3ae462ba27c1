-- ===== src/Config/Nested.antt =====
-- config.go: the options of the bulkhead and of the circuit breaker, whose settings depend on each other.
use r8e.Prelude.{ℕ, Bool, not, ◌||◌, Option, none, some, List, [], ◌∷◌, ◌++◌, if◌then◌else◌}
use r8e.Prelude.Float.{Float}
use r8e.Errors.{
  err_slow_call_config_incomplete, err_bulkhead_queue_without_wait,
  err_bulkhead_codel_config_incomplete,
}
use Prim.Native.String.{String}
use r8e.Breaker.Options.{
  CircuitBreakerOption, failure_threshold, recovery_timeout, half_open_max_attempts, slow_call_rate,
  slow_call_window, slow_call_min_calls, recovery_backoff_multiplier, recovery_max_backoff,
  ramp_recovery, ramp_aggression, ramp_initial_fraction,
}
use r8e.Bulkhead.Options.{BulkheadOption, bulkhead_max_wait, bulkhead_queue_depth, bulkhead_co_del}
use r8e.Policy.{is_set}
use r8e.Config
use r8e.Config.{Checked, valid, refused, ◌>>=◌, invalid, CircuitBreakerConfig, PolicyConfig}
use r8e.Config.Patterns.{given, duration, given_duration}

module _ (fl : Float) (parse_duration : String → Option ℕ) where
  open fl use {Carrier}

  unfoldable pub bulkhead_wait_enabled : PolicyConfig fl → Bool
  bulkhead_wait_enabled pc =
      is_set pc.bulkhead_max_wait
      || is_set pc.bulkhead_codel_target
      || is_set pc.bulkhead_codel_interval

  unfoldable pub has_any_bulkhead_wait_setting : PolicyConfig fl → Bool
  unfolding bulkhead_wait_enabled
  has_any_bulkhead_wait_setting pc = is_set pc.bulkhead_queue_depth || bulkhead_wait_enabled pc

  queue_depth_option : PolicyConfig fl → Checked (List BulkheadOption)
  unfolding bulkhead_wait_enabled
  queue_depth_option pc = elim pc.bulkhead_queue_depth [
    | none ↦ valid []
    | some n ↦
        if not (bulkhead_wait_enabled pc)
        then refused (invalid err_bulkhead_queue_without_wait)
        else valid (bulkhead_queue_depth n ∷ [])
  ]

  codel_option : Option String → Option String → Checked (List BulkheadOption)
  unfolding duration
  codel_option none none = valid []
  codel_option none (some i) = refused (invalid err_bulkhead_codel_config_incomplete)
  codel_option (some t) none = refused (invalid err_bulkhead_codel_config_incomplete)
  codel_option (some t) (some i) = do
    target ← duration parse_duration Config.bulkhead_codel_target t
    interval ← duration parse_duration Config.bulkhead_codel_interval i
    valid (bulkhead_co_del target interval ∷ [])

  unfoldable pub bulkhead_options_from_config : PolicyConfig fl → Checked (List BulkheadOption)
  unfolding queue_depth_option codel_option given_duration
  bulkhead_options_from_config pc = do
    wait ←
        given_duration parse_duration Config.bulkhead_max_wait bulkhead_max_wait
          pc.bulkhead_max_wait
    depth ← queue_depth_option pc
    codel ← codel_option pc.bulkhead_codel_target pc.bulkhead_codel_interval
    valid (wait ++ depth ++ codel)

  slow_call_rate_option : Option String → Option Carrier → Checked (List (CircuitBreakerOption fl))
  unfolding duration
  slow_call_rate_option none none = valid []
  slow_call_rate_option none (some rate) = refused (invalid err_slow_call_config_incomplete)
  slow_call_rate_option (some text) none = refused (invalid err_slow_call_config_incomplete)
  slow_call_rate_option (some text) (some rate) = do
    d ← duration parse_duration Config.slow_call_duration text
    valid (slow_call_rate d rate ∷ [])

  slow_call_options_from_config : CircuitBreakerConfig fl → Checked (List (CircuitBreakerOption fl))
  unfolding slow_call_rate_option
  slow_call_options_from_config cfg = do
    rate ← slow_call_rate_option cfg.slow_call_duration cfg.slow_call_rate_threshold
    valid (
        rate
        ++ given slow_call_window cfg.slow_call_window
        ++ given slow_call_min_calls cfg.slow_call_min_calls)

  ramp_options_from_config : CircuitBreakerConfig fl → Checked (List (CircuitBreakerOption fl))
  unfolding given_duration
  ramp_options_from_config cfg = do
    window ← given_duration parse_duration Config.ramp_recovery ramp_recovery cfg.ramp_recovery
    valid (
        window
        ++ given ramp_aggression cfg.ramp_aggression
        ++ given ramp_initial_fraction cfg.ramp_initial_fraction)

  unfoldable pub cb_options_from_config :
      CircuitBreakerConfig fl → Checked (List (CircuitBreakerOption fl))
  unfolding given_duration slow_call_options_from_config ramp_options_from_config
  cb_options_from_config cfg = do
    recovery ←
        given_duration parse_duration Config.recovery_timeout recovery_timeout cfg.recovery_timeout
    slow ← slow_call_options_from_config cfg
    backoff ←
        given_duration parse_duration Config.recovery_max_backoff recovery_max_backoff
          cfg.recovery_max_backoff
    ramp ← ramp_options_from_config cfg
    valid (
        given failure_threshold cfg.failure_threshold
        ++ recovery
        ++ given half_open_max_attempts cfg.half_open_max_attempts
        ++ slow
        ++ given recovery_backoff_multiplier cfg.recovery_backoff_multiplier
        ++ backoff
        ++ ramp)
