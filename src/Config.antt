-- ===== src/Config.antt =====
-- config.go: the configuration of a policy as it is read from a file, and the errors of turning it into
-- options. A string is a Text; time.ParseDuration is a parameter of the functions, and a duration that
-- it reads is not negative.
pub mod Patterns
pub mod Nested
pub mod Build
pub mod Installs
pub mod Unused
use r8e.Prelude.{ℕ, Bool, true, false, Option, none, some, List, [], ◌∷◌}
use r8e.Prelude.Float.{Float}
use r8e.Errors.{Sentinel}
use Prim.Native.String.{String}

-- The settings whose text is parsed.
pub data Setting : Type 0 where
  timeout adaptive_timeout_floor time_budget retry_base_delay retry_max_delay hedge
        adaptive_hedge_floor aimd_interval bulkhead_max_wait bulkhead_codel_target
        bulkhead_codel_interval adaptive_throttle_window slo_long_window slo_short_window
        recovery_timeout slow_call_duration recovery_max_backoff ramp_recovery :
      Setting

pub data ConfigError : Type 0 where
  invalid : Sentinel → ConfigError
  not_a_duration : Setting → ConfigError
  backoff_required base_delay_required : ConfigError
  unknown_backoff : String → ConfigError

-- A result of the functions of the configuration.
pub data Checked {ℓ} (A : Type ℓ) : Type ℓ where
  valid : A → Checked A
  refused : ConfigError → Checked A

infixl 5 ◌>>=◌
abbrev pub ◌>>=◌ {ℓ κ} : {A : Type ℓ} {B : Type κ} → Checked A → (A → Checked B) → Checked B
valid a >>= f = f a
refused e >>= f = refused e

pub record RetryConfig : Type 0 where
  pub backoff : Option String
  pub base_delay : Option String
  pub max_delay : Option String
  pub max_attempts : Option ℕ

module _ (fl : Float) where
  open fl use {Carrier}

  pub record CircuitBreakerConfig : Type 0 where
    pub recovery_timeout : Option String
    pub failure_threshold : Option ℕ
    pub half_open_max_attempts : Option ℕ
    pub slow_call_duration : Option String
    pub slow_call_rate_threshold : Option Carrier
    pub slow_call_window : Option ℕ
    pub slow_call_min_calls : Option ℕ
    pub recovery_backoff_multiplier : Option Carrier
    pub recovery_max_backoff : Option String
    pub ramp_recovery : Option String
    pub ramp_aggression : Option Carrier
    pub ramp_initial_fraction : Option Carrier

  pub record AdaptiveConfig : Type 0 where
    pub initial_limit : Option ℕ
    pub min_limit : Option ℕ
    pub max_limit : Option ℕ
    pub rtt_tolerance : Option Carrier

  pub record AdaptiveThrottleConfig : Type 0 where
    pub overload_ratio : Option Carrier
    pub max_rejection_rate : Option Carrier
    pub window : Option String
    pub min_requests : Option ℕ

  pub record SloConfig : Type 0 where
    pub target : Option Carrier
    pub long_window : Option String
    pub short_window : Option String
    pub burn_threshold : Option Carrier
    pub max_shed_rate : Option Carrier
    pub min_requests : Option ℕ

  pub record AimdConfig : Type 0 where
    pub min_rate : Option Carrier
    pub max_rate : Option Carrier
    pub backoff : Option Carrier
    pub increase : Option Carrier
    pub interval : Option String

  -- AdaptiveTimeoutConfig and AdaptiveHedgeConfig
  pub record AdaptiveEstimatorConfig : Type 0 where
    pub percentile : Option Carrier
    pub multiplier : Option Carrier
    pub floor : Option String
    pub min_samples : Option ℕ

  pub record RetryBudgetConfig : Type 0 where
    pub max_tokens : Option ℕ
    pub token_ratio : Option Carrier

  pub record ConcurrencyBudgetConfig : Type 0 where
    pub max_ratio : Option Carrier
    pub min_concurrency : Option ℕ

  pub record PolicyConfig : Type 0 where
    pub circuit_breaker : Option CircuitBreakerConfig
    pub retry : Option RetryConfig
    pub timeout : Option String
    pub adaptive_timeout : Option AdaptiveEstimatorConfig
    pub time_budget : Option String
    pub propagate_deadline : Option Bool
    pub respect_inbound_deadline : Option Bool
    pub hedge : Option String
    pub adaptive_hedge : Option AdaptiveEstimatorConfig
    pub rate_limit : Option Carrier
    pub aimd : Option AimdConfig
    pub bulkhead : Option ℕ
    pub bulkhead_max_wait : Option String
    pub bulkhead_queue_depth : Option ℕ
    pub bulkhead_codel_target : Option String
    pub bulkhead_codel_interval : Option String
    pub adaptive_concurrency : Option AdaptiveConfig
    pub adaptive_throttle : Option AdaptiveThrottleConfig
    pub slo : Option SloConfig
    pub retry_budget : Option RetryBudgetConfig
    pub concurrency_budget : Option ConcurrencyBudgetConfig
