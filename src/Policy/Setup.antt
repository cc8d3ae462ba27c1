-- ===== src/Policy/Setup.antt =====
-- policy.go: the options of a policy, the setup that they fill, and the rules that NewPolicy and
-- BuildOptions enforce on it. A setup holds values of the caller that the builder only hands on; their
-- types are the `Handles`.
use r8e.Prelude.{
  ℕ, Bool, true, false, not, ◌&&◌, Option, none, some, List, [], ◌∷◌, ◌++◌, ltb, leb, if◌then◌else◌,
}
use r8e.Prelude.Float.{Float}
use r8e.Errors.{Sentinel}
use r8e.Errors.Sentinel.{
  err_retry_budget_without_retry, err_concurrency_budget_without_consumer,
  err_coalesce_nil_key_func, err_coalesce_without_timeout, err_cache_nil_key_func,
  err_cache_nil_cache, err_cache_non_positive_ttl, err_refresh_ahead_without_timeout,
  err_concurrency_limiter_conflict, err_time_budget_without_consumer,
}
use r8e.Backoff.{BackoffStrategy}
use r8e.Breaker.Options.{CircuitBreakerOption}
use r8e.RateLimiter.{RateLimitOption}
use r8e.Bulkhead.Options.{BulkheadOption}
use r8e.Throttle.{ThrottleOption}
use r8e.Slo.{SloOption}
use r8e.RetryBudget.{RetryBudget, RetryBudgetOption, new_retry_budget}
use r8e.ConcurrencyBudget.{ConcurrencyBudget, ConcurrencyBudgetOption, new_concurrency_budget}
use r8e.Policy.Options.{
  TimeBudgetOption, apply_time_budget_options, RetryOption, CacheOption, apply_cache_options,
  AdaptiveOption, EstimatorOption, EstimatorConfig, estimator_of,
}

-- The types of the values of the caller: clocks, hooks, registries, key functions, caches, fallback
-- values, fallback functions, chaos strategies and health reporters.
pub record Handles : Type 1 where
  pub Clock : Type 0
  pub Hooks : Type 0
  pub RegistryRef : Type 0
  pub KeyFn : Type 0
  pub AnyCache : Type 0
  pub Value : Type 0
  pub FallbackFn : Type 0
  pub ChaosStrategy : Type 0
  pub HealthReporter : Type 0

pub record CacheDesc (h : Handles) : Type 0 where
  pub cache : Option h.AnyCache
  pub key_fn : Option h.KeyFn
  pub opts : List CacheOption
  pub ttl : ℕ

pub record RetryDesc : Type 0 where
  pub strategy : BackoffStrategy
  pub opts : List RetryOption
  pub max_attempts : ℕ

abbrev pub is_set {ℓ} : {A : Type ℓ} → Option A → Bool
is_set none = false
is_set (some a) = true

module _ (fl : Float) (h : Handles) where
  open fl use {Carrier}

  pub record PolicySetup : Type 0 where
    pub clock : Option h.Clock
    pub hooks : Option h.Hooks
    pub registry : Option h.RegistryRef
    pub timeout : Option ℕ
    pub timeout_adaptive : Option (EstimatorConfig fl)
    pub time_budget : Option ℕ
    pub retry : Option RetryDesc
    pub circuit_breaker : Option (List (CircuitBreakerOption fl))
    pub rate_limit : Option (Carrier × List (RateLimitOption fl))
    pub bulkhead : Option (ℕ × List BulkheadOption)
    pub adaptive : Option (List (AdaptiveOption fl))
    pub throttle : Option (List (ThrottleOption fl))
    pub slo : Option (Carrier × List (SloOption fl))
    pub hedge : Option ℕ
    pub hedge_adaptive : Option (EstimatorConfig fl)
    pub fallback_value : Option h.Value
    pub fallback_func : Option h.FallbackFn
    pub retry_budget : Option (RetryBudget fl)
    pub concurrency_budget : Option (ConcurrencyBudget fl)
    pub coalesce : Option (Option h.KeyFn)
    pub cache : Option (CacheDesc h)
    pub chaos : Option (List h.ChaosStrategy)
    pub deps : List h.HealthReporter
    pub affects_readiness : Bool
    pub propagate_deadline : Bool
    pub respect_inbound_deadline : Bool
    pub panic_recover : Bool

  unfoldable pub unset : PolicySetup
  unset = record {
    clock = none;
    hooks = none;
    registry = none;
    timeout = none;
    timeout_adaptive = none;
    time_budget = none;
    retry = none;
    circuit_breaker = none;
    rate_limit = none;
    bulkhead = none;
    adaptive = none;
    throttle = none;
    slo = none;
    hedge = none;
    hedge_adaptive = none;
    fallback_value = none;
    fallback_func = none;
    retry_budget = none;
    concurrency_budget = none;
    coalesce = none;
    cache = none;
    chaos = none;
    deps = [];
    affects_readiness = false;
    propagate_deadline = false;
    respect_inbound_deadline = false;
    panic_recover = false;
  }

  -- The constructors are the With functions, WithSharedRetryBudget and DependsOn; a nil argument is
  -- none.
  pub data PolicyOption : Type 0 where
    with_clock : Option h.Clock → PolicyOption
    with_hooks : Option h.Hooks → PolicyOption
    with_registry : Option h.RegistryRef → PolicyOption
    with_timeout with_hedge : ℕ → List (List (EstimatorOption fl)) → PolicyOption
    with_time_budget : ℕ → List TimeBudgetOption → PolicyOption
    with_retry : ℕ → BackoffStrategy → List RetryOption → PolicyOption
    with_retry_budget : List (RetryBudgetOption fl) → PolicyOption
    with_shared_retry_budget : Option (RetryBudget fl) → PolicyOption
    with_concurrency_budget : List (ConcurrencyBudgetOption fl) → PolicyOption
    with_shared_concurrency_budget : Option (ConcurrencyBudget fl) → PolicyOption
    with_circuit_breaker : List (CircuitBreakerOption fl) → PolicyOption
    with_rate_limit : Carrier → List (RateLimitOption fl) → PolicyOption
    with_bulkhead : ℕ → List BulkheadOption → PolicyOption
    with_adaptive_concurrency : List (AdaptiveOption fl) → PolicyOption
    with_adaptive_throttle : List (ThrottleOption fl) → PolicyOption
    with_slo : Carrier → List (SloOption fl) → PolicyOption
    with_recover with_readiness_impact : PolicyOption
    with_coalesce : Option h.KeyFn → PolicyOption
    with_cache : Option h.AnyCache → Option h.KeyFn → ℕ → List CacheOption → PolicyOption
    with_fallback : h.Value → PolicyOption
    with_fallback_func : h.FallbackFn → PolicyOption
    with_chaos : List h.ChaosStrategy → PolicyOption
    depends_on : List h.HealthReporter → PolicyOption

  unfoldable pub apply_option : PolicyOption → PolicySetup → PolicySetup
  unfolding estimator_of apply_time_budget_options
  apply_option (with_clock c) s = record s { clock = c }
  apply_option (with_hooks none) s = s
  apply_option (with_hooks (some hooks)) s = record s { hooks = some hooks }
  apply_option (with_registry reg) s = record s { registry = reg }
  apply_option (with_timeout timeout opts) s = record s {
    timeout = some timeout;
    timeout_adaptive = estimator_of fl opts none;
  }
  apply_option (with_hedge delay opts) s = record s {
    hedge = some delay;
    hedge_adaptive = estimator_of fl opts none;
  }
  apply_option (with_time_budget budget opts) s =
      let cfg =
        apply_time_budget_options opts
          (record { propagate_deadline = false; respect_inbound_deadline = false }) in
      record s {
        time_budget = some budget;
        propagate_deadline = cfg.propagate_deadline;
        respect_inbound_deadline = cfg.respect_inbound_deadline;
      }
  apply_option (with_retry max_attempts strategy opts) s = record s {
    retry = some (record { strategy = strategy; opts = opts; max_attempts = max_attempts });
  }
  apply_option (with_retry_budget opts) s = record s {
    retry_budget = some (new_retry_budget fl opts);
  }
  apply_option (with_shared_retry_budget budget) s = record s { retry_budget = budget }
  apply_option (with_concurrency_budget opts) s = record s {
    concurrency_budget = some (new_concurrency_budget fl opts);
  }
  apply_option (with_shared_concurrency_budget budget) s = record s { concurrency_budget = budget }
  apply_option (with_circuit_breaker opts) s = record s { circuit_breaker = some opts }
  apply_option (with_rate_limit rate opts) s = record s { rate_limit = some (rate, opts) }
  apply_option (with_bulkhead n opts) s = record s { bulkhead = some (n, opts) }
  apply_option (with_adaptive_concurrency opts) s = record s { adaptive = some opts }
  apply_option (with_adaptive_throttle opts) s = record s { throttle = some opts }
  apply_option (with_slo target opts) s = record s { slo = some (target, opts) }
  apply_option with_recover s = record s { panic_recover = true }
  apply_option with_readiness_impact s = record s { affects_readiness = true }
  apply_option (with_coalesce key_fn) s = record s { coalesce = some key_fn }
  apply_option (with_cache cache key_fn ttl opts) s = record s {
    cache = some (record { cache = cache; key_fn = key_fn; opts = opts; ttl = ttl });
  }
  apply_option (with_fallback value) s = record s { fallback_value = some value }
  apply_option (with_fallback_func fn) s = record s { fallback_func = some fn }
  apply_option (with_chaos strategies) s = record s { chaos = some strategies }
  apply_option (depends_on reporters) s = record s { deps = s.deps ++ reporters }

  unfoldable pub apply_options : List PolicyOption → PolicySetup → PolicySetup
  unfolding apply_option
  apply_options [] s = s
  apply_options (o ∷ os) s = apply_options os (apply_option o s)

  refresh_ahead_enabled : CacheDesc h → Bool
  unfolding apply_cache_options
  refresh_ahead_enabled d =
      let cfg =
        apply_cache_options d.opts (record { stale_ttl = 0; neg_ttl = 0; refresh_ttl = 0 }) in
      ltb 0 cfg.refresh_ttl && ltb cfg.refresh_ttl d.ttl

  coalesce_error : PolicySetup → Option Sentinel
  coalesce_error s = elim s.coalesce [
    | none ↦ none
    | some none ↦ some err_coalesce_nil_key_func
    | some (some key_fn) ↦ if is_set s.timeout then none else some err_coalesce_without_timeout
  ]

  cache_error : PolicySetup → Option Sentinel
  unfolding refresh_ahead_enabled
  cache_error s = elim s.cache [
    | none ↦ none
    | some d ↦
        if not (is_set d.key_fn)
        then some err_cache_nil_key_func
        else if not (is_set d.cache)
        then some err_cache_nil_cache
        else if leb d.ttl 0
        then some err_cache_non_positive_ttl
        else if not (is_set s.timeout) && refresh_ahead_enabled d
        then some err_refresh_ahead_without_timeout
        else none
  ]

  -- The last rules of checkSetupInvariants.
  conflict_error : PolicySetup → Option Sentinel
  conflict_error s =
      if is_set s.bulkhead && is_set s.adaptive
      then some err_concurrency_limiter_conflict
      else if is_set s.time_budget && not (is_set s.retry) && not (is_set s.hedge)
      then some err_time_budget_without_consumer
      else none

  -- The first error, or none.
  unfoldable pub check_setup_invariants : PolicySetup → Option Sentinel
  unfolding coalesce_error cache_error conflict_error
  check_setup_invariants s =
      if is_set s.retry_budget && not (is_set s.retry)
      then some err_retry_budget_without_retry
      else if is_set s.concurrency_budget && not (is_set s.retry) && not (is_set s.hedge)
      then some err_concurrency_budget_without_consumer
      else elim (coalesce_error s) [
        | some e ↦ some e
        | none ↦ elim (cache_error s) [ some e ↦ some e | none ↦ conflict_error s ]
      ]
