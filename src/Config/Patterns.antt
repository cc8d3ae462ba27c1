-- ===== src/Config/Patterns.antt =====
-- config.go: the options of each pattern, from its part of a configuration.
use r8e.Prelude.{ℕ, Option, none, some, List, [], ◌∷◌, ◌++◌, if◌then◌else◌}
use r8e.Prelude.Float.{Float}
use r8e.Errors.{err_retry_max_attempts_required}
use Prim.Native.String.{String}
use text.Mathlib.Text.{◌==◌}
use r8e.Backoff.{
  BackoffStrategy, constant_backoff, exponential_backoff, linear_backoff,
  exponential_jitter_backoff,
}
use r8e.RateLimiter.{RateLimitOption, aimd}
use r8e.RateLimiter.Aimd.{
  AimdOption, aimd_min_rate, aimd_max_rate, aimd_backoff, aimd_increase, aimd_interval,
}
use r8e.Throttle.{ThrottleOption, overload_ratio, max_rejection_rate, throttle_window, min_requests}
use r8e.Slo.{
  SloOption, slo_long_window, slo_short_window, burn_threshold, max_shed_rate, slo_min_requests,
}
use r8e.RetryBudget.{RetryBudgetOption, max_tokens, token_ratio}
use r8e.ConcurrencyBudget.{ConcurrencyBudgetOption, max_ratio, min_concurrency}
use r8e.Policy.{RetryDesc}
use r8e.Policy.Options.{
  max_delay, AdaptiveOption, initial_limit, min_limit, max_limit, rtt_tolerance, EstimatorOption,
  percentile, multiplier, floor, min_samples,
}
use r8e.Config
use r8e.Config.{
  Setting, ConfigError, retry_base_delay, retry_max_delay, adaptive_throttle_window, Checked, valid,
  refused, ◌>>=◌, invalid, not_a_duration, backoff_required, base_delay_required, unknown_backoff,
  RetryConfig, CircuitBreakerConfig, AdaptiveConfig, AdaptiveThrottleConfig, SloConfig, AimdConfig,
  AdaptiveEstimatorConfig, RetryBudgetConfig, ConcurrencyBudgetConfig, PolicyConfig,
}

-- The option of a setting, if it is set.
abbrev pub given {ℓ κ} : {A : Type ℓ} {B : Type κ} → (A → B) → Option A → List B
given f none = []
given f (some a) = f a ∷ []

module _ (parse_duration : String → Option ℕ) where
  -- A setting that is a duration, read if it is set.
  unfoldable pub duration : Setting → String → Checked ℕ
  duration setting text = elim (parse_duration text) [
    | none ↦ refused (not_a_duration setting)
    | some d ↦ valid d
  ]

  unfoldable pub given_duration {κ} :
      {B : Type κ} → Setting → (ℕ → B) → Option String → Checked (List B)
  unfolding duration
  given_duration setting f none = valid []
  given_duration setting f (some text) = do d ← duration setting text; valid (f d ∷ [])

  strategy_named : String → ℕ → Checked BackoffStrategy
  strategy_named name base =
      if name == "constant"
      then valid (constant_backoff base)
      else if name == "exponential"
      then valid (exponential_backoff base)
      else if name == "linear"
      then valid (linear_backoff base)
      else if name == "exponential_jitter"
      then valid (exponential_jitter_backoff base)
      else refused (unknown_backoff name)

  pub parse_backoff_strategy : Option String → Option String → Checked BackoffStrategy
  unfolding duration strategy_named
  parse_backoff_strategy none base = refused backoff_required
  parse_backoff_strategy (some name) none = refused base_delay_required
  parse_backoff_strategy (some name) (some text) = do
    base ← duration retry_base_delay text
    strategy_named name base

  required : Option ℕ → Checked ℕ
  required none = refused (invalid err_retry_max_attempts_required)
  required (some n) = valid n

  unfoldable pub retry_runtime_from_config : RetryConfig → Checked RetryDesc
  unfolding parse_backoff_strategy given_duration required
  retry_runtime_from_config cfg = do
    strategy ← parse_backoff_strategy cfg.backoff cfg.base_delay
    opts ← given_duration retry_max_delay max_delay cfg.max_delay
    n ← required cfg.max_attempts
    valid (record { strategy = strategy; opts = opts; max_attempts = n })

module _ (fl : Float) (parse_duration : String → Option ℕ) where
  unfoldable pub adaptive_options_from_config : AdaptiveConfig fl → List (AdaptiveOption fl)
  adaptive_options_from_config cfg =
      given initial_limit cfg.initial_limit
      ++ given min_limit cfg.min_limit
      ++ given max_limit cfg.max_limit
      ++ given rtt_tolerance cfg.rtt_tolerance

  unfoldable pub throttle_options_from_config :
      AdaptiveThrottleConfig fl → Checked (List (ThrottleOption fl))
  unfolding given_duration
  throttle_options_from_config cfg = do
    window ← given_duration parse_duration adaptive_throttle_window throttle_window cfg.window
    valid (
        given overload_ratio cfg.overload_ratio
        ++ given max_rejection_rate cfg.max_rejection_rate
        ++ window
        ++ given min_requests cfg.min_requests)

  unfoldable pub slo_options_from_config : SloConfig fl → Checked (List (SloOption fl))
  unfolding given_duration
  slo_options_from_config cfg = do
    long ← given_duration parse_duration Config.slo_long_window slo_long_window cfg.long_window
    short ← given_duration parse_duration Config.slo_short_window slo_short_window cfg.short_window
    valid (
        long
        ++ short
        ++ given burn_threshold cfg.burn_threshold
        ++ given max_shed_rate cfg.max_shed_rate
        ++ given slo_min_requests cfg.min_requests)

  -- adaptiveTimeoutOptionsFromConfig and adaptiveHedgeOptionsFromConfig, which name the setting of
  -- their floor.
  unfoldable pub estimator_options_from_config :
      Setting → AdaptiveEstimatorConfig fl → Checked (List (EstimatorOption fl))
  unfolding given_duration
  estimator_options_from_config setting cfg = do
    floors ← given_duration parse_duration setting floor cfg.floor
    valid (
        given percentile cfg.percentile
        ++ given multiplier cfg.multiplier
        ++ floors
        ++ given min_samples cfg.min_samples)

  -- timeoutOptionsFromConfig and hedgeOptionsFromConfig
  unfoldable pub adaptive_from_config :
      Setting → Option (AdaptiveEstimatorConfig fl) → Checked (List (List (EstimatorOption fl)))
  unfolding estimator_options_from_config
  adaptive_from_config setting none = valid []
  adaptive_from_config setting (some cfg) = do
    opts ← estimator_options_from_config setting cfg
    valid (opts ∷ [])

  unfoldable pub aimd_options_from_config : AimdConfig fl → Checked (List (AimdOption fl))
  unfolding given_duration
  aimd_options_from_config cfg = do
    interval ← given_duration parse_duration Config.aimd_interval aimd_interval cfg.interval
    valid (
        given aimd_min_rate cfg.min_rate
        ++ given aimd_max_rate cfg.max_rate
        ++ given aimd_backoff cfg.backoff
        ++ given aimd_increase cfg.increase
        ++ interval)

  unfoldable pub rate_limit_options_from_config :
      PolicyConfig fl → Checked (List (RateLimitOption fl))
  unfolding aimd_options_from_config
  rate_limit_options_from_config pc = elim pc.aimd [
    | none ↦ valid []
    | some cfg ↦ do opts ← aimd_options_from_config cfg; valid (aimd opts ∷ [])
  ]

  unfoldable pub retry_budget_options_from_config :
      RetryBudgetConfig fl → List (RetryBudgetOption fl)
  retry_budget_options_from_config cfg =
      given max_tokens cfg.max_tokens ++ given token_ratio cfg.token_ratio

  unfoldable pub concurrency_budget_options_from_config :
      ConcurrencyBudgetConfig fl → List (ConcurrencyBudgetOption fl)
  concurrency_budget_options_from_config cfg =
      given max_ratio cfg.max_ratio ++ given min_concurrency cfg.min_concurrency
