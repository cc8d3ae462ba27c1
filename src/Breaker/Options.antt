-- ===== src/Breaker/Options.antt =====
-- circuitbreaker.go: circuitBreakerConfig, its defaults and the options that set it.
-- Durations are natural numbers of nanoseconds.
use r8e.Prelude.{ℕ, ◌*◌, ◌^◌, List, [], ◌∷◌, leb, if◌then◌else◌}
use r8e.Prelude.Float.{Float, lt}

-- time.Second
abbrev pub second : ℕ
second = 10 ^ 9

module _ (fl : Float) where
  open fl use {Carrier, le, of_int, div}

  pub record Config : Type 0 where
    pub failure_threshold : ℕ
    pub recovery_timeout : ℕ
    pub half_open_max_attempts : ℕ
    pub slow_call_duration : ℕ
    pub slow_call_rate_threshold : Carrier
    pub slow_call_window : ℕ
    pub slow_call_min_calls : ℕ
    pub recovery_backoff_multiplier : Carrier
    pub recovery_max_backoff : ℕ
    pub ramp_recovery_window : ℕ
    pub ramp_aggression : Carrier
    pub ramp_initial_fraction : Carrier

  unfoldable pub default_circuit_breaker_config : Config
  default_circuit_breaker_config = record {
    failure_threshold = 5;
    recovery_timeout = 30 * second;
    half_open_max_attempts = 1;
    slow_call_duration = 0;
    slow_call_rate_threshold = of_int 0;
    slow_call_window = 100;
    slow_call_min_calls = 10;
    recovery_backoff_multiplier = of_int 0;
    recovery_max_backoff = 0;
    ramp_recovery_window = 0;
    ramp_aggression = of_int 1;
    ramp_initial_fraction = div (of_int 1) (of_int 10);
  }

  unfoldable pub clamp_unit_interval : Carrier → Carrier
  clamp_unit_interval rate =
      if lt fl rate (of_int 0) then of_int 0 else if lt fl (of_int 1) rate then of_int 1 else rate

  -- The functional options.
  pub data CircuitBreakerOption : Type 0 where
    failure_threshold recovery_timeout half_open_max_attempts : ℕ → CircuitBreakerOption
    slow_call_rate : ℕ → Carrier → CircuitBreakerOption
    slow_call_window slow_call_min_calls : ℕ → CircuitBreakerOption
    recovery_backoff_multiplier : Carrier → CircuitBreakerOption
    recovery_max_backoff ramp_recovery : ℕ → CircuitBreakerOption
    ramp_aggression ramp_initial_fraction : Carrier → CircuitBreakerOption

  unfoldable pub apply_option : CircuitBreakerOption → Config → Config
  unfolding clamp_unit_interval
  apply_option (failure_threshold n) cfg = record cfg { failure_threshold = n }
  apply_option (recovery_timeout d) cfg = record cfg { recovery_timeout = d }
  apply_option (half_open_max_attempts n) cfg = record cfg { half_open_max_attempts = n }
  apply_option (slow_call_rate d rate) cfg = record cfg {
    slow_call_duration = d;
    slow_call_rate_threshold = clamp_unit_interval rate;
  }
  apply_option (slow_call_window n) cfg =
      if leb 1 n then record cfg { slow_call_window = n } else cfg
  apply_option (slow_call_min_calls n) cfg =
      if leb 1 n then record cfg { slow_call_min_calls = n } else cfg
  apply_option (recovery_backoff_multiplier f) cfg = record cfg { recovery_backoff_multiplier = f }
  apply_option (recovery_max_backoff d) cfg = record cfg { recovery_max_backoff = d }
  apply_option (ramp_recovery w) cfg = record cfg { ramp_recovery_window = w }
  apply_option (ramp_aggression a) cfg =
      if lt fl (of_int 0) a then record cfg { ramp_aggression = a } else cfg
  apply_option (ramp_initial_fraction f) cfg = record cfg {
    ramp_initial_fraction = clamp_unit_interval f;
  }

  unfoldable pub apply_options : List CircuitBreakerOption → Config → Config
  unfolding apply_option
  apply_options [] cfg = cfg
  apply_options (o ∷ os) cfg = apply_options os (apply_option o cfg)
