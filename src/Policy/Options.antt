-- ===== src/Policy/Options.antt =====
-- timeout.go, hedge.go, adaptive.go, timebudget.go, retry.go and readthrough.go: the options of the
-- patterns that the policy builder hands to them, and the configurations that they fill.
use r8e.Prelude.{ℕ, Bool, true, Option, some, List, [], ◌∷◌}
use r8e.Prelude.Float.{Float}
use r8e.Errors.{Error}

pub data TimeBudgetOption : Type 0 where
  propagate_deadline respect_inbound_deadline : TimeBudgetOption

pub record TimeBudgetConfig : Type 0 where
  pub propagate_deadline : Bool
  pub respect_inbound_deadline : Bool

unfoldable pub apply_time_budget_options :
    List TimeBudgetOption → TimeBudgetConfig → TimeBudgetConfig
apply_time_budget_options [] cfg = cfg
apply_time_budget_options (propagate_deadline ∷ os) cfg =
    apply_time_budget_options os (record cfg { propagate_deadline = true })
apply_time_budget_options (respect_inbound_deadline ∷ os) cfg =
    apply_time_budget_options os (record cfg { respect_inbound_deadline = true })

pub data RetryOption : Type 0 where
  max_delay per_attempt_timeout : ℕ → RetryOption
  retry_if : (Error → Bool) → RetryOption

pub data CacheOption : Type 0 where
  stale_if_error refresh_ahead negative_cache : ℕ → CacheOption
  cache_clock cache_hooks : CacheOption

pub record CacheOptions : Type 0 where
  pub stale_ttl : ℕ
  pub neg_ttl : ℕ
  pub refresh_ttl : ℕ

-- A clock and hooks do not stand in the part of the options that is kept here.
unfoldable pub apply_cache_options : List CacheOption → CacheOptions → CacheOptions
apply_cache_options [] cfg = cfg
apply_cache_options (stale_if_error d ∷ os) cfg =
    apply_cache_options os (record cfg { stale_ttl = d })
apply_cache_options (refresh_ahead d ∷ os) cfg =
    apply_cache_options os (record cfg { refresh_ttl = d })
apply_cache_options (negative_cache d ∷ os) cfg =
    apply_cache_options os (record cfg { neg_ttl = d })
apply_cache_options (cache_clock ∷ os) cfg = apply_cache_options os cfg
apply_cache_options (cache_hooks ∷ os) cfg = apply_cache_options os cfg

module _ (fl : Float) where
  open fl use {Carrier, of_int}

  pub data AdaptiveOption : Type 0 where
    initial_limit min_limit max_limit : ℕ → AdaptiveOption
    rtt_tolerance : Carrier → AdaptiveOption

  -- The options of the adaptive timeout and those of the adaptive hedge are alike, and fill alike
  -- configurations: AdaptiveTimeoutOption and AdaptiveHedgeOption.
  pub data EstimatorOption : Type 0 where
    percentile multiplier : Carrier → EstimatorOption
    floor min_samples : ℕ → EstimatorOption

  -- adaptiveTimeoutConfig and adaptiveHedgeConfig
  pub record EstimatorConfig : Type 0 where
    pub percentile : Carrier
    pub multiplier : Carrier
    pub floor : ℕ
    pub min_samples : ℕ

  unfoldable pub apply_estimator_options : List EstimatorOption → EstimatorConfig → EstimatorConfig
  apply_estimator_options [] cfg = cfg
  apply_estimator_options (percentile q ∷ os) cfg =
      apply_estimator_options os (record cfg { percentile = q })
  apply_estimator_options (multiplier m ∷ os) cfg =
      apply_estimator_options os (record cfg { multiplier = m })
  apply_estimator_options (floor d ∷ os) cfg = apply_estimator_options os (record cfg { floor = d })
  apply_estimator_options (min_samples n ∷ os) cfg =
      apply_estimator_options os (record cfg { min_samples = n })

  -- AdaptiveTimeout and AdaptiveHedge, the options of a timeout and of a hedge, start from zeros.
  unfoldable pub adaptive : List EstimatorOption → EstimatorConfig
  unfolding apply_estimator_options
  adaptive opts =
      apply_estimator_options opts
        (record { percentile = of_int 0; multiplier = of_int 0; floor = 0; min_samples = 0 })

  -- The options of WithTimeout or of WithHedge, of which the last one counts.
  unfoldable pub estimator_of :
      List (List EstimatorOption) → Option EstimatorConfig → Option EstimatorConfig
  unfolding adaptive
  estimator_of [] cfg = cfg
  estimator_of (opts ∷ os) cfg = estimator_of os (some (adaptive opts))
