-- ===== src/Reconfigure/Actions/Guarded.antt =====
-- reconfigure.go: the actions of the limiters, the shedders, the breaker, the retry and the budgets, and
-- Reconfigure.
use r8e.Prelude.{ℕ, Option, none, some, List, [], ◌∷◌, ◌++◌}
use r8e.Prelude.Float.{Float}
use r8e.Errors.{err_slo_target_required}
use Prim.Native.String.{String}
use r8e.Config.{invalid, SloConfig, PolicyConfig}
use r8e.Config.Patterns.{
  retry_runtime_from_config, adaptive_options_from_config, throttle_options_from_config,
  slo_options_from_config, retry_budget_options_from_config, concurrency_budget_options_from_config,
}
use r8e.Config.Nested.{cb_options_from_config}
use r8e.Reconfigure.{
  Policy, Action, run_actions, retunes_adaptive, retunes_throttler, retunes_slo, retunes_breaker,
  stores_retry, retunes_retry_budget, retunes_concurrency_budget,
}
use r8e.Reconfigure.Actions.{
  ReconfigureError, Prepared, pattern_absent, rejected, ready, failed, ◌>>=◌, checked, present,
  timeout_reconfigure_actions, time_budget_reconfigure_actions, hedge_reconfigure_actions,
  rate_limit_action, aimd_reconfigure_action, bulkhead_action,
}

module _ (fl : Float) (parse_duration : String → Option ℕ) where
  abbrev Actions : Type 0
  Actions = Prepared (List (Action fl))

  unfoldable pub adaptive_action : Policy fl → PolicyConfig fl → Actions
  adaptive_action p cfg = elim cfg.adaptive_concurrency [
    | none ↦ ready []
    | some c ↦
        present p.adaptive pattern_absent
          (ready (retunes_adaptive (adaptive_options_from_config fl parse_duration c) ∷ []))
  ]

  unfoldable pub throttle_action : Policy fl → PolicyConfig fl → Actions
  throttle_action p cfg = elim cfg.adaptive_throttle [
    | none ↦ ready []
    | some c ↦ present p.throttler pattern_absent (do
      opts ← checked (throttle_options_from_config fl parse_duration c)
      ready (retunes_throttler opts ∷ []))
  ]

  unfoldable pub slo_with_target : SloConfig fl → Option fl.Carrier → Actions
  slo_with_target c none = failed (rejected (invalid err_slo_target_required))
  slo_with_target c (some target) = do
    opts ← checked (slo_options_from_config fl parse_duration c)
    ready (retunes_slo target opts ∷ [])

  unfoldable pub slo_reconfigure_action : Policy fl → PolicyConfig fl → Actions
  unfolding slo_with_target
  slo_reconfigure_action p cfg = elim cfg.slo [
    | none ↦ ready []
    | some c ↦ present p.slo pattern_absent (slo_with_target c c.target)
  ]

  unfoldable pub circuit_breaker_action : Policy fl → PolicyConfig fl → Actions
  circuit_breaker_action p cfg = elim cfg.circuit_breaker [
    | none ↦ ready []
    | some c ↦ present p.circuit_breaker pattern_absent (do
      opts ← checked (cb_options_from_config fl parse_duration c)
      ready (retunes_breaker opts ∷ []))
  ]

  unfoldable pub retry_action : Policy fl → PolicyConfig fl → Actions
  retry_action p cfg = elim cfg.retry [
    | none ↦ ready []
    | some c ↦
        present p.retry pattern_absent (do
          rt ← checked (retry_runtime_from_config parse_duration c)
          ready (stores_retry rt ∷ []))
  ]

  unfoldable pub retry_budget_reconfigure_action : Policy fl → PolicyConfig fl → Actions
  retry_budget_reconfigure_action p cfg = elim cfg.retry_budget [
    | none ↦ ready []
    | some c ↦
        present p.retry_budget pattern_absent
          (ready (retunes_retry_budget (retry_budget_options_from_config fl parse_duration c) ∷ []))
  ]

  unfoldable pub concurrency_budget_reconfigure_action : Policy fl → PolicyConfig fl → Actions
  concurrency_budget_reconfigure_action p cfg = elim cfg.concurrency_budget [
    | none ↦ ready []
    | some c ↦ present p.concurrency_budget pattern_absent (
        ready (
          retunes_concurrency_budget (concurrency_budget_options_from_config fl parse_duration c)
          ∷ []))
  ]

  unfoldable pub prepared_actions : Policy fl → PolicyConfig fl → Actions
  unfolding timeout_reconfigure_actions time_budget_reconfigure_actions hedge_reconfigure_actions
      rate_limit_action aimd_reconfigure_action bulkhead_action adaptive_action throttle_action
      slo_reconfigure_action circuit_breaker_action retry_action retry_budget_reconfigure_action
      concurrency_budget_reconfigure_action
  prepared_actions p cfg = do
    timeout ← timeout_reconfigure_actions fl parse_duration p cfg
    budget ← time_budget_reconfigure_actions fl parse_duration p cfg
    hedge ← hedge_reconfigure_actions fl parse_duration p cfg
    rate ← rate_limit_action fl parse_duration p cfg
    aimd ← aimd_reconfigure_action fl parse_duration p cfg
    bulkhead ← bulkhead_action fl parse_duration p cfg
    adaptive ← adaptive_action p cfg
    throttle ← throttle_action p cfg
    slo ← slo_reconfigure_action p cfg
    breaker ← circuit_breaker_action p cfg
    retry ← retry_action p cfg
    retry_budget ← retry_budget_reconfigure_action p cfg
    concurrency ← concurrency_budget_reconfigure_action p cfg
    ready (
        timeout ++ budget ++ hedge ++ rate ++ aimd ++ bulkhead ++ adaptive ++ throttle ++ slo
        ++ breaker ++ retry ++ retry_budget ++ concurrency)

  -- The policy after Reconfigure, and its error.
  unfoldable pub reconfigure : Policy fl → PolicyConfig fl → Policy fl × Option ReconfigureError
  unfolding prepared_actions run_actions
  reconfigure p cfg = elim (prepared_actions p cfg) [
    | ready actions ↦ (run_actions fl actions p, none)
    | failed e ↦ (p, some e)
  ]
