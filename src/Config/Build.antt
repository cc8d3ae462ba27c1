-- ===== src/Config/Build.antt =====
-- config.go: BuildOptions, the options of a policy from its configuration.
pub mod Parts
use r8e.Prelude.{
  ℕ, Bool, true, false, not, ◌&&◌, ◌||◌, Option, none, some, List, [], ◌∷◌, ◌++◌, if◌then◌else◌,
}
use r8e.Prelude.Float.{Float}
use r8e.Errors.{
  err_adaptive_timeout_without_timeout, err_deadline_propagation_without_budget,
  err_inbound_deadline_without_budget, err_time_budget_without_consumer,
  err_aimd_without_rate_limit, err_concurrency_limiter_conflict, err_bulkhead_wait_without_bulkhead,
  err_slo_target_required, err_adaptive_hedge_without_hedge, err_retry_budget_without_retry,
  err_concurrency_budget_without_consumer,
}
use Prim.Native.String.{String}
use r8e.Policy.{
  Handles, is_set, PolicyOption, with_timeout, with_time_budget, with_retry, with_hedge,
  with_rate_limit, with_bulkhead, with_adaptive_concurrency, with_adaptive_throttle, with_slo,
  with_circuit_breaker, with_retry_budget, with_concurrency_budget, apply_options, unset,
  check_setup_invariants,
}
use r8e.Policy.Options.{TimeBudgetOption, propagate_deadline, respect_inbound_deadline}
use r8e.Config
use r8e.Config.{Setting, Checked, valid, refused, ◌>>=◌, invalid, SloConfig, PolicyConfig}
use r8e.Config.Patterns.{
  duration, retry_runtime_from_config, adaptive_options_from_config, throttle_options_from_config,
  slo_options_from_config, adaptive_from_config, rate_limit_options_from_config,
  retry_budget_options_from_config, concurrency_budget_options_from_config,
}
use r8e.Config.Nested.{
  bulkhead_options_from_config, has_any_bulkhead_wait_setting, cb_options_from_config,
}

abbrev pub is_true : Option Bool → Bool
is_true none = false
is_true (some b) = b

module _ (fl : Float) (h : Handles) (parse_duration : String → Option ℕ) where
  abbrev pub Options : Type 0
  Options = Checked (List (PolicyOption fl h))

  unfoldable pub timeout_part : PolicyConfig fl → Options
  timeout_part pc = elim pc.timeout [
    | none ↦
        if is_set pc.adaptive_timeout
        then refused (invalid err_adaptive_timeout_without_timeout)
        else valid []
    | some text ↦ do
      d ← duration parse_duration Config.timeout text
      opts ←
          adaptive_from_config fl parse_duration Config.adaptive_timeout_floor pc.adaptive_timeout
      valid (with_timeout d opts ∷ [])
  ]

  budget_options : PolicyConfig fl → List TimeBudgetOption
  budget_options pc =
      (if is_true pc.propagate_deadline then propagate_deadline ∷ [] else [])
      ++ (if is_true pc.respect_inbound_deadline then respect_inbound_deadline ∷ [] else [])

  unfoldable pub time_budget_options_from_config : PolicyConfig fl → Options
  unfolding budget_options
  time_budget_options_from_config pc = elim pc.time_budget [
    | none ↦
        if is_true pc.propagate_deadline
        then refused (invalid err_deadline_propagation_without_budget)
        else if is_true pc.respect_inbound_deadline
        then refused (invalid err_inbound_deadline_without_budget)
        else valid []
    | some text ↦
        if not (is_set pc.retry) && not (is_set pc.hedge)
        then refused (invalid err_time_budget_without_consumer)
        else do
          budget ← duration parse_duration Config.time_budget text
          valid (with_time_budget budget (budget_options pc) ∷ [])
  ]

  unfoldable pub circuit_breaker_part : PolicyConfig fl → Options
  circuit_breaker_part pc = elim pc.circuit_breaker [
    | none ↦ valid []
    | some cfg ↦ do
      opts ← cb_options_from_config fl parse_duration cfg
      valid (with_circuit_breaker opts ∷ [])
  ]

  unfoldable pub retry_part : PolicyConfig fl → Options
  retry_part pc = elim pc.retry [
    | none ↦ valid []
    | some cfg ↦ do
      rt ← retry_runtime_from_config parse_duration cfg
      valid (with_retry rt.max_attempts rt.strategy rt.opts ∷ [])
  ]

  unfoldable pub rate_limit_part : PolicyConfig fl → Options
  rate_limit_part pc = elim pc.rate_limit [
    | none ↦ if is_set pc.aimd then refused (invalid err_aimd_without_rate_limit) else valid []
    | some rate ↦ do
      opts ← rate_limit_options_from_config fl parse_duration pc
      valid (with_rate_limit rate opts ∷ [])
  ]

  unfoldable pub bulkhead_part : PolicyConfig fl → Options
  bulkhead_part pc =
      if is_set pc.bulkhead && is_set pc.adaptive_concurrency
      then refused (invalid err_concurrency_limiter_conflict)
      else elim pc.bulkhead [
        | none ↦
            if has_any_bulkhead_wait_setting fl parse_duration pc
            then refused (invalid err_bulkhead_wait_without_bulkhead)
            else valid []
        | some n ↦ do
          opts ← bulkhead_options_from_config fl parse_duration pc
          valid (with_bulkhead n opts ∷ [])
      ]

  unfoldable pub adaptive_part : PolicyConfig fl → Options
  adaptive_part pc = elim pc.adaptive_concurrency [
    | none ↦ valid []
    | some cfg ↦
        valid (with_adaptive_concurrency (adaptive_options_from_config fl parse_duration cfg) ∷ [])
  ]

  unfoldable pub throttle_part : PolicyConfig fl → Options
  throttle_part pc = elim pc.adaptive_throttle [
    | none ↦ valid []
    | some cfg ↦ do
      opts ← throttle_options_from_config fl parse_duration cfg
      valid (with_adaptive_throttle opts ∷ [])
  ]

  unfoldable pub with_target : SloConfig fl → Option fl.Carrier → Options
  with_target cfg none = refused (invalid err_slo_target_required)
  with_target cfg (some target) = do
    opts ← slo_options_from_config fl parse_duration cfg
    valid (with_slo target opts ∷ [])

  unfoldable pub slo_part : PolicyConfig fl → Options
  unfolding with_target
  slo_part pc = elim pc.slo [ none ↦ valid [] | some cfg ↦ with_target cfg cfg.target ]

  unfoldable pub load_shedder_options : PolicyConfig fl → Options
  unfolding throttle_part slo_part
  load_shedder_options pc = do
    throttle ← throttle_part pc
    slo ← slo_part pc
    valid (throttle ++ slo)

  unfoldable pub hedge_part : PolicyConfig fl → Options
  hedge_part pc = elim pc.hedge [
    | none ↦
        if is_set pc.adaptive_hedge
        then refused (invalid err_adaptive_hedge_without_hedge)
        else valid []
    | some text ↦ do
      delay ← duration parse_duration Config.hedge text
      opts ← adaptive_from_config fl parse_duration Config.adaptive_hedge_floor pc.adaptive_hedge
      valid (with_hedge delay opts ∷ [])
  ]

  unfoldable pub retry_budget_part : PolicyConfig fl → Options
  retry_budget_part pc = elim pc.retry_budget [
    | none ↦ valid []
    | some cfg ↦
        if not (is_set pc.retry)
        then refused (invalid err_retry_budget_without_retry)
        else valid (with_retry_budget (retry_budget_options_from_config fl parse_duration cfg) ∷ [])
  ]

  unfoldable pub concurrency_budget_part : PolicyConfig fl → Options
  concurrency_budget_part pc = elim pc.concurrency_budget [
    | none ↦ valid []
    | some cfg ↦
        if not (is_set pc.retry) && not (is_set pc.hedge)
        then refused (invalid err_concurrency_budget_without_consumer)
        else valid (
            with_concurrency_budget (concurrency_budget_options_from_config fl parse_duration cfg)
            ∷ [])
  ]

  -- BuildOptions without its last check.
  unfoldable pub assemble : PolicyConfig fl → Options
  unfolding timeout_part time_budget_options_from_config circuit_breaker_part retry_part
      rate_limit_part bulkhead_part adaptive_part load_shedder_options hedge_part retry_budget_part
      concurrency_budget_part
  assemble pc = do
    timeout ← timeout_part pc
    budget ← time_budget_options_from_config pc
    breaker ← circuit_breaker_part pc
    retry ← retry_part pc
    rate ← rate_limit_part pc
    bulkhead ← bulkhead_part pc
    adaptive ← adaptive_part pc
    shedders ← load_shedder_options pc
    hedge ← hedge_part pc
    retry_budget ← retry_budget_part pc
    concurrency ← concurrency_budget_part pc
    valid (
        timeout ++ budget ++ breaker ++ retry ++ rate ++ bulkhead ++ adaptive ++ shedders ++ hedge
        ++ retry_budget ++ concurrency)

  unfoldable pub build_options : PolicyConfig fl → Options
  unfolding assemble check_setup_invariants apply_options unset
  build_options pc = do
    opts ← assemble pc
    elim (check_setup_invariants fl h (apply_options fl h opts (unset fl h))) [
      | some e ↦ refused (invalid e)
      | none ↦ valid opts
    ]
