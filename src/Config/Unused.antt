-- ===== src/Config/Unused.antt =====
-- config.go: the configurations that BuildOptions refuses whatever their numbers and durations are.
use r8e.Prelude.{
  ℕ, ◌≡◌, refl, ◌⊎◌, inl, inr, Bool, true, false, not, ◌&&◌, ◌||◌, Option, none, some, List, arith,
}
use r8e.Prelude.Float.{Float}
use Prim.Native.String.{String}
use r8e.Policy.{Handles, PolicyOption, is_set}
use r8e.Config.{Checked, ConfigError, valid, refused, PolicyConfig, SloConfig}
use r8e.Config.Nested.{has_any_bulkhead_wait_setting, bulkhead_wait_enabled}
use r8e.Config.Build.{
  is_true, timeout_part, time_budget_options_from_config, rate_limit_part, bulkhead_part, slo_part,
  with_target, hedge_part, retry_budget_part, concurrency_budget_part, build_options,
}
use r8e.Config.Build.Parts.{Parts, build_options-Parts}

outcome :
    {A : Type 0} (r : Checked A) → ((a : A) × (r ≡ valid a)) ⊎ ((e : ConfigError) × (r ≡ refused e))
outcome (valid a) = inl (a, refl)
outcome (refused e) = inr (e, refl)

without_target : {fl : Float} → Option (SloConfig fl) → Bool
without_target none = false
without_target (some cfg) = not (is_set cfg.target)

module _ (fl : Float) where
  -- A setting without the pattern or the setting that it needs, or two limiters of concurrency.
  unfoldable pub orphaned : PolicyConfig fl → Bool
  unfolding without_target
  orphaned pc =
      not (is_set pc.timeout) && is_set pc.adaptive_timeout
      || not (is_set pc.time_budget)
        && (is_true pc.propagate_deadline || is_true pc.respect_inbound_deadline)
      || is_set pc.time_budget && not (is_set pc.retry) && not (is_set pc.hedge)
      || not (is_set pc.rate_limit) && is_set pc.aimd
      || is_set pc.bulkhead && is_set pc.adaptive_concurrency
      || not (is_set pc.bulkhead)
        && (is_set pc.bulkhead_queue_depth
            || is_set pc.bulkhead_max_wait
            || is_set pc.bulkhead_codel_target
            || is_set pc.bulkhead_codel_interval)
      || not (is_set pc.hedge) && is_set pc.adaptive_hedge
      || is_set pc.retry_budget && not (is_set pc.retry)
      || is_set pc.concurrency_budget && not (is_set pc.retry) && not (is_set pc.hedge)
      || without_target pc.slo

  module _ (h : Handles) (parse_duration : String → Option ℕ) (pc : PolicyConfig fl) where
    timeout_ok :
        (os : List (PolicyOption fl h))
        → timeout_part fl h parse_duration pc ≡ valid os
        → not (is_set pc.timeout) && is_set pc.adaptive_timeout ≡ false
    unfolding timeout_part
    timeout_ok os e = ground (arith, e)

    budget_ok :
        (os : List (PolicyOption fl h))
        → time_budget_options_from_config fl h parse_duration pc ≡ valid os
        → (not (is_set pc.time_budget)
              && (is_true pc.propagate_deadline || is_true pc.respect_inbound_deadline)
            ≡ false)
          × (is_set pc.time_budget && not (is_set pc.retry) && not (is_set pc.hedge) ≡ false)
    unfolding time_budget_options_from_config
    budget_ok os e = ground (arith, e)

    rate_ok :
        (os : List (PolicyOption fl h))
        → rate_limit_part fl h parse_duration pc ≡ valid os
        → not (is_set pc.rate_limit) && is_set pc.aimd ≡ false
    unfolding rate_limit_part
    rate_ok os e = ground (arith, e)

    bulkhead_ok :
        (os : List (PolicyOption fl h))
        → bulkhead_part fl h parse_duration pc ≡ valid os
        → (is_set pc.bulkhead && is_set pc.adaptive_concurrency ≡ false)
          × (not (is_set pc.bulkhead)
                && (is_set pc.bulkhead_queue_depth
                    || is_set pc.bulkhead_max_wait
                    || is_set pc.bulkhead_codel_target
                    || is_set pc.bulkhead_codel_interval)
              ≡ false)
    unfolding bulkhead_part has_any_bulkhead_wait_setting bulkhead_wait_enabled
    bulkhead_ok os e = ground (arith, e)

    hedge_ok :
        (os : List (PolicyOption fl h))
        → hedge_part fl h parse_duration pc ≡ valid os
        → not (is_set pc.hedge) && is_set pc.adaptive_hedge ≡ false
    unfolding hedge_part
    hedge_ok os e = ground (arith, e)

    retry_budget_ok :
        (os : List (PolicyOption fl h))
        → retry_budget_part fl h parse_duration pc ≡ valid os
        → is_set pc.retry_budget && not (is_set pc.retry) ≡ false
    unfolding retry_budget_part
    retry_budget_ok os e = ground (arith, e)

    concurrency_ok :
        (os : List (PolicyOption fl h))
        → concurrency_budget_part fl h parse_duration pc ≡ valid os
        → is_set pc.concurrency_budget && not (is_set pc.retry) && not (is_set pc.hedge) ≡ false
    unfolding concurrency_budget_part
    concurrency_ok os e = ground (arith, e)

    slo_ok :
        (os : List (PolicyOption fl h))
        → slo_part fl h parse_duration pc ≡ valid os
        → without_target pc.slo ≡ false
    unfolding slo_part with_target without_target
    slo_ok os e = ground (arith, e)

    complete :
        (opts : List (PolicyOption fl h)) → Parts fl h parse_duration pc opts → orphaned pc ≡ false
    unfolding orphaned
    complete opts v =
        let (b1, b2) = budget_ok v.budget v.of_budget in
        let (k1, k2) = bulkhead_ok v.bulkhead v.of_bulkhead in
        rw
          (
            timeout_ok v.timeout v.of_timeout,
            b1,
            b2,
            rate_ok v.rate v.of_rate,
            k1,
            k2,
            hedge_ok v.hedge v.of_hedge,
            retry_budget_ok v.retry_budget v.of_retry_budget,
            concurrency_ok v.concurrency v.of_concurrency,
            slo_ok v.slo v.of_slo,
          )
          refl

    -- BuildOptions refuses a configuration in which a setting stands without the pattern it belongs to
    -- (adaptive timeout, deadline flags, AIMD, bulkhead waits, adaptive hedge), a time budget or a
    -- concurrency budget without a retry or a hedge, a retry budget without a retry, an SLO without its
    -- target, or a bulkhead with an adaptive limiter.
    pub build_options_of_orphaned :
        orphaned pc ≡ true → (e : ConfigError) × (build_options fl h parse_duration pc ≡ refused e)
    build_options_of_orphaned o = elim (outcome (build_options fl h parse_duration pc)) [
      | inr r ↦ r
      | inl (opts, ok) ↦
          ground (arith, o, complete opts (build_options-Parts fl h parse_duration pc opts ok).0)
    ]
