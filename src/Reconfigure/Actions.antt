-- ===== src/Reconfigure/Actions.antt =====
-- reconfigure.go: the actions of each pattern, and Reconfigure.
pub mod Guarded
use r8e.Prelude.{
  ℕ, ◌+◌, Bool, true, false, not, ◌&&◌, ◌||◌, Option, none, some, List, [], ◌∷◌, ◌++◌,
  if◌then◌else◌,
}
use r8e.Prelude.Float.{Float}
use r8e.Errors.{
  err_adaptive_timeout_without_timeout, err_deadline_propagation_without_budget,
  err_inbound_deadline_without_budget, err_aimd_without_rate_limit,
  err_bulkhead_wait_without_bulkhead, err_slo_target_required, err_adaptive_hedge_without_hedge,
}
use Prim.Native.String.{String}
use r8e.Policy.{is_set}
use r8e.Policy.Options.{EstimatorOption}
use r8e.Breaker.State
use r8e.Bulkhead
use r8e.RateLimiter
use r8e.RateLimiter.Aimd
use r8e.Adaptive
use r8e.Throttle
use r8e.Slo
use r8e.RetryBudget
use r8e.ConcurrencyBudget
use r8e.Config
use r8e.Config.{
  Setting, ConfigError, Checked, valid, refused, invalid, AdaptiveEstimatorConfig, SloConfig,
  PolicyConfig,
}
use r8e.Config.Patterns.{
  duration, retry_runtime_from_config, adaptive_options_from_config, throttle_options_from_config,
  slo_options_from_config, estimator_options_from_config, aimd_options_from_config,
  retry_budget_options_from_config, concurrency_budget_options_from_config,
}
use r8e.Config.Nested.{
  bulkhead_options_from_config, has_any_bulkhead_wait_setting, cb_options_from_config,
}
use r8e.Reconfigure.{
  Policy, Action, stores_timeout, retunes_timeout, stores_budget, stores_propagate, stores_respect,
  stores_hedge, retunes_hedge, sets_rate, retunes_aimd, resizes_bulkhead,
}

-- An error of Reconfigure: ErrPatternAbsent, or an error of the configuration.
pub data ReconfigureError : Type 0 where
  pattern_absent : ReconfigureError
  rejected : ConfigError → ReconfigureError

pub data Prepared {ℓ} (A : Type ℓ) : Type ℓ where
  ready : A → Prepared A
  failed : ReconfigureError → Prepared A

infixl 5 ◌>>=◌
abbrev pub ◌>>=◌ {ℓ κ} : {A : Type ℓ} {B : Type κ} → Prepared A → (A → Prepared B) → Prepared B
ready a >>= f = f a
failed e >>= f = failed e

-- A result of the functions of the configuration, with the error wrapped.
abbrev pub checked {ℓ} : {A : Type ℓ} → Checked A → Prepared A
checked (valid a) = ready a
checked (refused e) = failed (rejected e)

-- The guard of a pattern that the policy does not have.
abbrev pub present {ℓ κ} :
    {A : Type ℓ} {B : Type κ} → Option A → ReconfigureError → Prepared B → Prepared B
present none e rest = failed e
present (some a) e rest = rest

module _ (fl : Float) (parse_duration : String → Option ℕ) where
  abbrev pub Actions : Type 0
  Actions = Prepared (List (Action fl))

  timeout_reconfigure_action : Policy fl → Option String → Actions
  timeout_reconfigure_action p none = ready []
  timeout_reconfigure_action p (some raw) = present p.timeout pattern_absent (do
    dur ← checked (duration parse_duration Config.timeout raw)
    ready (stores_timeout dur ∷ []))

  adaptive_timeout_reconfigure_action : Policy fl → Option (AdaptiveEstimatorConfig fl) → Actions
  adaptive_timeout_reconfigure_action p none = ready []
  adaptive_timeout_reconfigure_action p (some cfg) =
      present p.adaptive_timeout (rejected (invalid err_adaptive_timeout_without_timeout)) (do
        opts ←
            checked
              (estimator_options_from_config fl parse_duration Config.adaptive_timeout_floor cfg)
        ready (retunes_timeout opts ∷ []))

  unfoldable pub timeout_reconfigure_actions : Policy fl → PolicyConfig fl → Actions
  unfolding timeout_reconfigure_action adaptive_timeout_reconfigure_action
  timeout_reconfigure_actions p cfg = do
    plain ← timeout_reconfigure_action p cfg.timeout
    adaptive ← adaptive_timeout_reconfigure_action p cfg.adaptive_timeout
    ready (plain ++ adaptive)

  time_budget_reconfigure_action : Policy fl → Option String → Actions
  time_budget_reconfigure_action p none = ready []
  time_budget_reconfigure_action p (some raw) = present p.time_budget pattern_absent (do
    dur ← checked (duration parse_duration Config.time_budget raw)
    ready (stores_budget dur ∷ []))

  propagate_reconfigure_action : Policy fl → Option Bool → Actions
  propagate_reconfigure_action p none = ready []
  propagate_reconfigure_action p (some propagate) =
      present p.time_budget (rejected (invalid err_deadline_propagation_without_budget))
        (ready (stores_propagate propagate ∷ []))

  respect_reconfigure_action : Policy fl → Option Bool → Actions
  respect_reconfigure_action p none = ready []
  respect_reconfigure_action p (some respect) =
      present p.time_budget (rejected (invalid err_inbound_deadline_without_budget))
        (ready (stores_respect respect ∷ []))

  unfoldable pub time_budget_reconfigure_actions : Policy fl → PolicyConfig fl → Actions
  unfolding time_budget_reconfigure_action propagate_reconfigure_action respect_reconfigure_action
  time_budget_reconfigure_actions p cfg = do
    budget ← time_budget_reconfigure_action p cfg.time_budget
    propagate ← propagate_reconfigure_action p cfg.propagate_deadline
    respect ← respect_reconfigure_action p cfg.respect_inbound_deadline
    ready (budget ++ propagate ++ respect)

  hedge_reconfigure_action : Policy fl → Option String → Actions
  hedge_reconfigure_action p none = ready []
  hedge_reconfigure_action p (some raw) =
      present p.hedge pattern_absent
        (do dur ← checked (duration parse_duration Config.hedge raw); ready (stores_hedge dur ∷ []))

  adaptive_hedge_reconfigure_action : Policy fl → Option (AdaptiveEstimatorConfig fl) → Actions
  adaptive_hedge_reconfigure_action p none = ready []
  adaptive_hedge_reconfigure_action p (some cfg) =
      present p.adaptive_hedge (rejected (invalid err_adaptive_hedge_without_hedge)) (do
        opts ←
            checked
              (estimator_options_from_config fl parse_duration Config.adaptive_hedge_floor cfg)
        ready (retunes_hedge opts ∷ []))

  unfoldable pub hedge_reconfigure_actions : Policy fl → PolicyConfig fl → Actions
  unfolding hedge_reconfigure_action adaptive_hedge_reconfigure_action
  hedge_reconfigure_actions p cfg = do
    plain ← hedge_reconfigure_action p cfg.hedge
    adaptive ← adaptive_hedge_reconfigure_action p cfg.adaptive_hedge
    ready (plain ++ adaptive)

  unfoldable pub rate_limit_action : Policy fl → PolicyConfig fl → Actions
  rate_limit_action p cfg = elim cfg.rate_limit [
    | none ↦ ready []
    | some rate ↦ present p.rate_limiter pattern_absent (ready (sets_rate rate ∷ []))
  ]

  has_aimd : Option (RateLimiter.RateLimiter fl) → Bool
  has_aimd none = false
  has_aimd (some rl) = is_set rl.aimd

  unfoldable pub aimd_reconfigure_action : Policy fl → PolicyConfig fl → Actions
  unfolding has_aimd
  aimd_reconfigure_action p cfg = elim cfg.aimd [
    | none ↦ ready []
    | some aimd ↦ present p.rate_limiter pattern_absent (
        if not (has_aimd p.rate_limiter)
        then failed (rejected (invalid err_aimd_without_rate_limit))
        else do
          opts ← checked (aimd_options_from_config fl parse_duration aimd)
          ready (retunes_aimd opts ∷ []))
  ]

  unfoldable pub bulkhead_action : Policy fl → PolicyConfig fl → Actions
  bulkhead_action p cfg = elim cfg.bulkhead [
    | none ↦
        if has_any_bulkhead_wait_setting fl parse_duration cfg
        then failed (rejected (invalid err_bulkhead_wait_without_bulkhead))
        else ready []
    | some slots ↦ present p.bulkhead pattern_absent (do
      opts ← checked (bulkhead_options_from_config fl parse_duration cfg)
      ready (resizes_bulkhead slots opts ∷ []))
  ]
