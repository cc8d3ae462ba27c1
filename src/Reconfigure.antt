-- ===== src/Reconfigure.antt =====
-- reconfigure.go: Policy.Reconfigure, on the live patterns of a policy. The
-- actions run after all of them were prepared without an error.
pub mod Actions
pub mod Frame
pub mod Outcome
use r8e.Prelude.{ℕ, Bool, true, false, ◌||◌, Option, none, some, List, [], ◌∷◌, leb, if◌then◌else◌}
use r8e.Prelude.Float.{Float, lt}
use r8e.Policy.{RetryDesc}
use r8e.Policy.Options.{AdaptiveOption, EstimatorOption}
use r8e.TimeBudget.{TimeBudgetState}
use r8e.Estimator.{Estimator, timeout_defaults, hedge_defaults, reconfigure_estimator}
use mathlib.Core.Option.{map}
use r8e.Breaker.State
use r8e.Breaker.State.{CircuitBreaker}
use r8e.Breaker.Options.{CircuitBreakerOption}
use r8e.RateLimiter
use r8e.RateLimiter.{RateLimiter}
use r8e.RateLimiter.Aimd.{AimdOption, reconfigure_aimd}
use r8e.Bulkhead
use r8e.Bulkhead.{Bulkhead}
use r8e.Bulkhead.Options.{BulkheadOption}
use r8e.Adaptive
use r8e.Adaptive.{AdaptiveLimiter}
use r8e.Throttle
use r8e.Throttle.{Throttler, ThrottleOption}
use r8e.Slo
use r8e.Slo.{SloGovernor, SloOption}
use r8e.RetryBudget
use r8e.RetryBudget.{RetryBudget, RetryBudgetOption}
use r8e.ConcurrencyBudget
use r8e.ConcurrencyBudget.{ConcurrencyBudget, ConcurrencyBudgetOption}

module _ (fl : Float) where
  open fl use {Carrier, le, of_int}

  -- The live patterns of a Policy.
  pub record Policy : Type 0 where
    pub timeout : Option ℕ
    pub adaptive_timeout : Option (Estimator fl)
    pub time_budget : Option TimeBudgetState
    pub hedge : Option ℕ
    pub adaptive_hedge : Option (Estimator fl)
    pub rate_limiter : Option (RateLimiter fl)
    pub bulkhead : Option Bulkhead
    pub adaptive : Option (AdaptiveLimiter fl)
    pub throttler : Option (Throttler fl)
    pub slo : Option (SloGovernor fl)
    pub circuit_breaker : Option (CircuitBreaker fl)
    pub retry : Option RetryDesc
    pub retry_budget : Option (RetryBudget fl)
    pub concurrency_budget : Option (ConcurrencyBudget fl)

  -- The closures of Reconfigure, with what they capture.
  pub data Action : Type 0 where
    stores_timeout stores_hedge stores_budget : ℕ → Action
    retunes_timeout retunes_hedge : List (EstimatorOption fl) → Action
    stores_propagate stores_respect : Bool → Action
    sets_rate : Carrier → Action
    retunes_aimd : List (AimdOption fl) → Action
    resizes_bulkhead : ℕ → List BulkheadOption → Action
    retunes_adaptive : List (AdaptiveOption fl) → Action
    retunes_throttler : List (ThrottleOption fl) → Action
    retunes_slo : Carrier → List (SloOption fl) → Action
    retunes_breaker : List (CircuitBreakerOption fl) → Action
    stores_retry : RetryDesc → Action
    retunes_retry_budget : List (RetryBudgetOption fl) → Action
    retunes_concurrency_budget : List (ConcurrencyBudgetOption fl) → Action

  abbrev pub store_budget : ℕ → TimeBudgetState → TimeBudgetState
  store_budget d t = record t { budget = d }

  abbrev pub store_propagate : Bool → TimeBudgetState → TimeBudgetState
  store_propagate b t = record t { propagate_deadline = b }

  abbrev pub store_respect : Bool → TimeBudgetState → TimeBudgetState
  store_respect b t = record t { respect_inbound_deadline = b }

  -- The controller of a rate limiter, if it has one.
  retune_aimd : List (AimdOption fl) → RateLimiter fl → RateLimiter fl
  retune_aimd opts rl = record rl { aimd = map (λ a. reconfigure_aimd fl a opts) rl.aimd }

  -- A cell that the policy does not have stays absent: its pointer is nil.
  unfoldable pub apply_action : Action → Policy → Policy
  unfolding retune_aimd
  apply_action (stores_timeout d) p = record p { timeout = map (λ old. d) p.timeout }
  apply_action (stores_hedge d) p = record p { hedge = map (λ old. d) p.hedge }
  apply_action (stores_budget d) p = record p { time_budget = map (store_budget d) p.time_budget }
  apply_action (retunes_timeout opts) p = record p {
    adaptive_timeout =
        map (λ e. reconfigure_estimator fl (timeout_defaults fl) e opts) p.adaptive_timeout;
  }
  apply_action (retunes_hedge opts) p = record p {
    adaptive_hedge =
        map (λ e. reconfigure_estimator fl (hedge_defaults fl) e opts) p.adaptive_hedge;
  }
  apply_action (stores_propagate b) p = record p {
    time_budget = map (store_propagate b) p.time_budget;
  }
  apply_action (stores_respect b) p = record p { time_budget = map (store_respect b) p.time_budget }
  apply_action (sets_rate rate) p = record p {
    rate_limiter = map (λ rl. RateLimiter.reconfigure fl rl rate) p.rate_limiter;
  }
  apply_action (retunes_aimd opts) p = record p {
    rate_limiter = map (retune_aimd opts) p.rate_limiter;
  }
  apply_action (resizes_bulkhead n opts) p = record p {
    bulkhead = map (λ b. Bulkhead.reconfigure b n opts) p.bulkhead;
  }
  apply_action (retunes_adaptive opts) p = record p {
    adaptive = map (λ a. Adaptive.reconfigure fl a opts) p.adaptive;
  }
  apply_action (retunes_throttler opts) p = record p {
    throttler = map (λ t. Throttle.reconfigure fl t opts) p.throttler;
  }
  apply_action (retunes_slo target opts) p = record p {
    slo = map (λ g. Slo.reconfigure fl g target opts) p.slo;
  }
  apply_action (retunes_breaker opts) p = record p {
    circuit_breaker = map (λ cb. State.reconfigure fl cb opts) p.circuit_breaker;
  }
  apply_action (stores_retry rt) p = record p { retry = map (λ old. rt) p.retry }
  apply_action (retunes_retry_budget opts) p = record p {
    retry_budget = map (λ b. RetryBudget.reconfigure fl b opts) p.retry_budget;
  }
  apply_action (retunes_concurrency_budget opts) p = record p {
    concurrency_budget = map (λ b. ConcurrencyBudget.reconfigure fl b opts) p.concurrency_budget;
  }

  unfoldable pub run_actions : List Action → Policy → Policy
  unfolding apply_action
  run_actions [] p = p
  run_actions (a ∷ rest) p = run_actions rest (apply_action a p)
