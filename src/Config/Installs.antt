-- ===== src/Config/Installs.antt =====
-- config.go and policy.go: the patterns that a policy built from a configuration has.
use r8e.Prelude.{
  ℕ, ◌≡◌, refl, ap, ◌∙◌, Bool, false, ◌&&◌, ◌||◌, Option, List, [], ◌∷◌, ◌++◌, arith, ◌==◌,
}
use r8e.Prelude.Float.{Float}
use Prim.Native.String.{String}
use r8e.Chain.{Middleware, chain, sort_patterns}
use r8e.Policy.{
  Handles, PolicySetup, PolicyOption, Pattern, installed, entries, keep, is_set, apply_option,
  apply_options, unset, new_policy, constructs, timeout, time_budget, retry, concurrency_budget,
  circuit_breaker, rate_limiter, bulkhead, adaptive_concurrency, adaptive_throttle, slo, hedge,
  recover, chaos, cache, coalesce, fallback, fallback_func,
}
use r8e.Policy.Layers.{nested, outermost_first, new_policy-nested}
use r8e.Config.{valid, PolicyConfig}
use r8e.Config.Build.{
  timeout_part, time_budget_options_from_config, circuit_breaker_part, retry_part, rate_limit_part,
  bulkhead_part, adaptive_part, throttle_part, slo_part, with_target, hedge_part, retry_budget_part,
  concurrency_budget_part, build_options,
}
use r8e.Config.Build.Parts.{Parts, build_options-Parts}

index : Pattern → ℕ
index timeout = 0
index time_budget = 1
index retry = 2
index concurrency_budget = 3
index circuit_breaker = 4
index rate_limiter = 5
index bulkhead = 6
index adaptive_concurrency = 7
index adaptive_throttle = 8
index slo = 9
index hedge = 10
index recover = 11
index chaos = 12
index cache = 13
index coalesce = 14
index fallback = 15
index fallback_func = 16

-- One pattern, if a condition holds.
only : Pattern → Bool → Pattern → Bool
unfolding index
only q b p = index p == index q && b

module _ (fl : Float) (h : Handles) (parse_duration : String → Option ℕ) where
  -- The patterns that a configuration asks for.
  pub configured : PolicyConfig fl → Pattern → Bool
  configured pc timeout = is_set pc.timeout
  configured pc time_budget = is_set pc.time_budget
  configured pc retry = is_set pc.retry
  configured pc concurrency_budget = is_set pc.concurrency_budget
  configured pc circuit_breaker = is_set pc.circuit_breaker
  configured pc rate_limiter = is_set pc.rate_limit
  configured pc bulkhead = is_set pc.bulkhead
  configured pc adaptive_concurrency = is_set pc.adaptive_concurrency
  configured pc adaptive_throttle = is_set pc.adaptive_throttle
  configured pc slo = is_set pc.slo
  configured pc hedge = is_set pc.hedge
  configured pc recover = false
  configured pc chaos = false
  configured pc cache = false
  configured pc coalesce = false
  configured pc fallback = false
  configured pc fallback_func = false

  module _ {H : Type 0} (mw : PolicySetup fl h → Pattern → Middleware H) where
    -- Options that install the patterns of a test.
    Adds : List (PolicyOption fl h) → (Pattern → Bool) → Type 0
    Adds os f =
        (s : PolicySetup fl h) (p : Pattern)
        → installed fl h mw (apply_options fl h os s) p ≡ f p || installed fl h mw s p

    timeout_part-Adds :
        (pc : PolicyConfig fl) (os : List (PolicyOption fl h))
        → timeout_part fl h parse_duration pc ≡ valid os
        → Adds os (only timeout (is_set pc.timeout))
    unfolding timeout_part Adds only index installed apply_options apply_option
    timeout_part-Adds pc os e s p = ground (arith, e)

    time_budget_options_from_config-Adds :
        (pc : PolicyConfig fl) (os : List (PolicyOption fl h))
        → time_budget_options_from_config fl h parse_duration pc ≡ valid os
        → Adds os (only time_budget (is_set pc.time_budget))
    unfolding time_budget_options_from_config Adds only index installed apply_options apply_option
    time_budget_options_from_config-Adds pc os e s p = ground (arith, e)

    circuit_breaker_part-Adds :
        (pc : PolicyConfig fl) (os : List (PolicyOption fl h))
        → circuit_breaker_part fl h parse_duration pc ≡ valid os
        → Adds os (only circuit_breaker (is_set pc.circuit_breaker))
    unfolding circuit_breaker_part Adds only index installed apply_options apply_option
    circuit_breaker_part-Adds pc os e s p = ground (arith, e)

    retry_part-Adds :
        (pc : PolicyConfig fl) (os : List (PolicyOption fl h))
        → retry_part fl h parse_duration pc ≡ valid os
        → Adds os (only retry (is_set pc.retry))
    unfolding retry_part Adds only index installed apply_options apply_option
    retry_part-Adds pc os e s p = ground (arith, e)

    rate_limit_part-Adds :
        (pc : PolicyConfig fl) (os : List (PolicyOption fl h))
        → rate_limit_part fl h parse_duration pc ≡ valid os
        → Adds os (only rate_limiter (is_set pc.rate_limit))
    unfolding rate_limit_part Adds only index installed apply_options apply_option
    rate_limit_part-Adds pc os e s p = ground (arith, e)

    bulkhead_part-Adds :
        (pc : PolicyConfig fl) (os : List (PolicyOption fl h))
        → bulkhead_part fl h parse_duration pc ≡ valid os
        → Adds os (only bulkhead (is_set pc.bulkhead))
    unfolding bulkhead_part Adds only index installed apply_options apply_option
    bulkhead_part-Adds pc os e s p = ground (arith, e)

    adaptive_part-Adds :
        (pc : PolicyConfig fl) (os : List (PolicyOption fl h))
        → adaptive_part fl h parse_duration pc ≡ valid os
        → Adds os (only adaptive_concurrency (is_set pc.adaptive_concurrency))
    unfolding adaptive_part Adds only index installed apply_options apply_option
    adaptive_part-Adds pc os e s p = ground (arith, e)

    throttle_part-Adds :
        (pc : PolicyConfig fl) (os : List (PolicyOption fl h))
        → throttle_part fl h parse_duration pc ≡ valid os
        → Adds os (only adaptive_throttle (is_set pc.adaptive_throttle))
    unfolding throttle_part Adds only index installed apply_options apply_option
    throttle_part-Adds pc os e s p = ground (arith, e)

    slo_part-Adds :
        (pc : PolicyConfig fl) (os : List (PolicyOption fl h))
        → slo_part fl h parse_duration pc ≡ valid os
        → Adds os (only slo (is_set pc.slo))
    unfolding slo_part with_target Adds only index installed apply_options apply_option
    slo_part-Adds pc os e s p = ground (arith, e)

    hedge_part-Adds :
        (pc : PolicyConfig fl) (os : List (PolicyOption fl h))
        → hedge_part fl h parse_duration pc ≡ valid os
        → Adds os (only hedge (is_set pc.hedge))
    unfolding hedge_part Adds only index installed apply_options apply_option
    hedge_part-Adds pc os e s p = ground (arith, e)

    concurrency_budget_part-Adds :
        (pc : PolicyConfig fl) (os : List (PolicyOption fl h))
        → concurrency_budget_part fl h parse_duration pc ≡ valid os
        → Adds os (only concurrency_budget (is_set pc.concurrency_budget))
    unfolding concurrency_budget_part Adds only index installed apply_options apply_option
    concurrency_budget_part-Adds pc os e s p = ground (arith, e)

    retry_budget_part-Adds :
        (pc : PolicyConfig fl) (os : List (PolicyOption fl h))
        → retry_budget_part fl h parse_duration pc ≡ valid os
        → Adds os (λ p. false)
    unfolding retry_budget_part Adds installed apply_options apply_option
    retry_budget_part-Adds pc os e s p = ground (arith, e)

    apply_options-++ :
        (xs ys : List (PolicyOption fl h)) (s : PolicySetup fl h)
        → apply_options fl h (xs ++ ys) s ≡ apply_options fl h ys (apply_options fl h xs s)
    unfolding apply_options
    apply_options-++ [] ys s = refl
    apply_options-++ (x ∷ xs) ys s = apply_options-++ xs ys (apply_option fl h x s)

    Adds-++ :
        (xs ys : List (PolicyOption fl h)) (f g : Pattern → Bool)
        → Adds xs f
        → Adds ys g
        → Adds (xs ++ ys) (λ p. f p || g p)
    unfolding Adds
    Adds-++ xs ys f g u v s p =
        ap (λ (t : PolicySetup fl h). installed fl h mw t p) (apply_options-++ xs ys s)
        ∙ v (apply_options fl h xs s) p
        ∙ ground (arith, u s p)

    at :
        (os : List (PolicyOption fl h)) (f : Pattern → Bool)
        → Adds os f
        → (s : PolicySetup fl h) (p : Pattern)
        → installed fl h mw (apply_options fl h os s) p ≡ f p || installed fl h mw s p
    unfolding Adds
    at os f v = v

    -- The patterns of the parts, of which each adds one.
    all_parts :
        (pc : PolicyConfig fl) (p : Pattern)
        → only timeout (is_set pc.timeout) p
            || only time_budget (is_set pc.time_budget) p
            || only circuit_breaker (is_set pc.circuit_breaker) p
            || only retry (is_set pc.retry) p
            || only rate_limiter (is_set pc.rate_limit) p
            || only bulkhead (is_set pc.bulkhead) p
            || only adaptive_concurrency (is_set pc.adaptive_concurrency) p
            || (only adaptive_throttle (is_set pc.adaptive_throttle) p
                || only slo (is_set pc.slo) p)
            || only hedge (is_set pc.hedge) p
            || false
            || only concurrency_budget (is_set pc.concurrency_budget) p
            || installed fl h mw (unset fl h) p
          ≡ configured pc p
    unfolding only index installed unset configured
    all_parts pc timeout = ground arith
    all_parts pc time_budget = ground arith
    all_parts pc retry = ground arith
    all_parts pc concurrency_budget = ground arith
    all_parts pc circuit_breaker = ground arith
    all_parts pc rate_limiter = ground arith
    all_parts pc bulkhead = ground arith
    all_parts pc adaptive_concurrency = ground arith
    all_parts pc adaptive_throttle = ground arith
    all_parts pc slo = ground arith
    all_parts pc hedge = ground arith
    all_parts pc recover = ground arith
    all_parts pc chaos = ground arith
    all_parts pc cache = ground arith
    all_parts pc coalesce = ground arith
    all_parts pc fallback = ground arith
    all_parts pc fallback_func = ground arith

    -- What the setup of an accepted configuration has.
    installed-configured :
        (pc : PolicyConfig fl) (opts : List (PolicyOption fl h)) (p : Pattern)
        → Parts fl h parse_duration pc opts
        → installed fl h mw (apply_options fl h opts (unset fl h)) p ≡ configured pc p
    installed-configured pc opts p v =
        let a1 = timeout_part-Adds pc v.timeout v.of_timeout in
        let a2 =
          Adds-++ _ _ _ _ a1 (time_budget_options_from_config-Adds pc v.budget v.of_budget) in
        let a3 = Adds-++ _ _ _ _ a2 (circuit_breaker_part-Adds pc v.breaker v.of_breaker) in
        let a4 = Adds-++ _ _ _ _ a3 (retry_part-Adds pc v.retry v.of_retry) in
        let a5 = Adds-++ _ _ _ _ a4 (rate_limit_part-Adds pc v.rate v.of_rate) in
        let a6 = Adds-++ _ _ _ _ a5 (bulkhead_part-Adds pc v.bulkhead v.of_bulkhead) in
        let a7 = Adds-++ _ _ _ _ a6 (adaptive_part-Adds pc v.adaptive v.of_adaptive) in
        let shed =
          Adds-++ _ _ _ _ (throttle_part-Adds pc v.throttle v.of_throttle)
            (slo_part-Adds pc v.slo v.of_slo) in
        let a8 = Adds-++ _ _ _ _ a7 shed in
        let a9 = Adds-++ _ _ _ _ a8 (hedge_part-Adds pc v.hedge v.of_hedge) in
        let a10 = Adds-++ _ _ _ _ a9 (retry_budget_part-Adds pc v.retry_budget v.of_retry_budget) in
        let a11 =
          Adds-++ _ _ _ _ a10 (concurrency_budget_part-Adds pc v.concurrency v.of_concurrency) in
        ap
          (λ (os : List (PolicyOption fl h)).
            installed fl h mw (apply_options fl h os (unset fl h)) p)
          v.together
        ∙ at _ _ a11 (unset fl h) p
        ∙ all_parts pc p

    keep_same :
        (f g : Pattern → Bool) (xs : List Pattern)
        → ((p : Pattern) → f p ≡ g p)
        → keep f xs ≡ keep g xs
    keep_same f g [] e = refl
    keep_same f g (x ∷ xs) e = ground (arith, e x, keep_same f g xs e)

    -- From a configuration that BuildOptions accepts, NewPolicy builds a policy without a panic, and
    -- its calls pass the middlewares of the patterns that the configuration sets, and of no others, in
    -- the fixed order of the layers.
    pub build_options-nested :
        (pc : PolicyConfig fl) (opts : List (PolicyOption fl h)) (next : H)
        → build_options fl h parse_duration pc ≡ valid opts
        → (m : Middleware H) × (new_policy fl h mw opts ≡ constructs m)
          × (m next
              ≡ nested fl h mw
                  (apply_options fl h opts (unset fl h))
                  (keep (configured pc) outermost_first)
                  next)
    unfolding new_policy
    build_options-nested pc opts next e =
        let (parts, passed) = build_options-Parts fl h parse_duration pc opts e in
        let s = apply_options fl h opts (unset fl h) in
        let built : new_policy fl h mw opts
            ≡ constructs (chain (sort_patterns (entries fl h mw s))) =
          rw (new_policy, passed) refl in
        (
          chain (sort_patterns (entries fl h mw s)),
          built,
          (new_policy-nested fl h mw opts _ next built).1
              ∙ ap (λ (ps : List Pattern). nested fl h mw s ps next)
                  (keep_same (installed fl h mw s) (configured pc) outermost_first
                    (λ p. installed-configured pc opts p parts)),
        )
