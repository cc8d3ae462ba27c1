-- ===== src/Config/Build/Parts.antt =====
-- config.go: the parts of a result of BuildOptions.
use r8e.Prelude.{ℕ, ◌≡◌, refl, sym, ap, ◌∙◌, subst, Option, none, some, List, ◌++◌, arith}
use r8e.Prelude.Float.{Float}
use Prim.Native.String.{String}
use r8e.Policy.{Handles, PolicyOption, apply_options, unset, check_setup_invariants}
use r8e.Config.{Checked, valid, refused, invalid, ◌>>=◌, PolicyConfig}
use r8e.Config.Build.{
  timeout_part, time_budget_options_from_config, circuit_breaker_part, retry_part, rate_limit_part,
  bulkhead_part, adaptive_part, throttle_part, slo_part, load_shedder_options, hedge_part,
  retry_budget_part, concurrency_budget_part, assemble, build_options,
}

-- A chain that ends in a value got one from its first link.
pub bind-valid :
    {A B : Type 0} (m : Checked A) (f : A → Checked B) (b : B)
    → m >>= f ≡ valid b
    → (a : A) × (m ≡ valid a) × (f a ≡ valid b)
bind-valid (valid a) f b e = (a, refl, e)
bind-valid (refused x) f b e = ground (arith, e)

abbrev value_or {ℓ} : {A : Type ℓ} → A → Checked A → A
value_or d (valid a) = a
value_or d (refused e) = d

module _ (fl : Float) (h : Handles) (parse_duration : String → Option ℕ)
    (pc : PolicyConfig fl) where
  -- The options of each part, which together are those of the policy.
  pub record Parts (opts : List (PolicyOption fl h)) : Type 0 where
    pub timeout : List (PolicyOption fl h)
    pub budget : List (PolicyOption fl h)
    pub breaker : List (PolicyOption fl h)
    pub retry : List (PolicyOption fl h)
    pub rate : List (PolicyOption fl h)
    pub bulkhead : List (PolicyOption fl h)
    pub adaptive : List (PolicyOption fl h)
    pub throttle : List (PolicyOption fl h)
    pub slo : List (PolicyOption fl h)
    pub hedge : List (PolicyOption fl h)
    pub retry_budget : List (PolicyOption fl h)
    pub concurrency : List (PolicyOption fl h)
    pub of_timeout : timeout_part fl h parse_duration pc ≡ valid timeout
    pub of_budget : time_budget_options_from_config fl h parse_duration pc ≡ valid budget
    pub of_breaker : circuit_breaker_part fl h parse_duration pc ≡ valid breaker
    pub of_retry : retry_part fl h parse_duration pc ≡ valid retry
    pub of_rate : rate_limit_part fl h parse_duration pc ≡ valid rate
    pub of_bulkhead : bulkhead_part fl h parse_duration pc ≡ valid bulkhead
    pub of_adaptive : adaptive_part fl h parse_duration pc ≡ valid adaptive
    pub of_throttle : throttle_part fl h parse_duration pc ≡ valid throttle
    pub of_slo : slo_part fl h parse_duration pc ≡ valid slo
    pub of_hedge : hedge_part fl h parse_duration pc ≡ valid hedge
    pub of_retry_budget : retry_budget_part fl h parse_duration pc ≡ valid retry_budget
    pub of_concurrency : concurrency_budget_part fl h parse_duration pc ≡ valid concurrency
    pub together :
        opts
        ≡ timeout
          ++ budget
          ++ breaker
          ++ retry
          ++ rate
          ++ bulkhead
          ++ adaptive
          ++ (throttle ++ slo)
          ++ hedge
          ++ retry_budget
          ++ concurrency

  assemble-Parts :
      (opts : List (PolicyOption fl h)) → assemble fl h parse_duration pc ≡ valid opts → Parts opts
  unfolding assemble load_shedder_options
  assemble-Parts opts e =
      let (timeout, of_timeout, e1) = bind-valid _ _ opts e in
      let (budget, of_budget, e2) = bind-valid _ _ opts e1 in
      let (breaker, of_breaker, e3) = bind-valid _ _ opts e2 in
      let (retry, of_retry, e4) = bind-valid _ _ opts e3 in
      let (rate, of_rate, e5) = bind-valid _ _ opts e4 in
      let (bulkhead, of_bulkhead, e6) = bind-valid _ _ opts e5 in
      let (adaptive, of_adaptive, e7) = bind-valid _ _ opts e6 in
      let (shedders, of_shedders, e8) = bind-valid _ _ opts e7 in
      let (hedge, of_hedge, e9) = bind-valid _ _ opts e8 in
      let (retry_budget, of_retry_budget, e10) = bind-valid _ _ opts e9 in
      let (concurrency, of_concurrency, e11) = bind-valid _ _ opts e10 in
      let (throttle, of_throttle, f1) = bind-valid _ _ shedders of_shedders in
      let (slo, of_slo, f2) = bind-valid _ _ shedders f1 in
      record {
        timeout = timeout;
        budget = budget;
        breaker = breaker;
        retry = retry;
        rate = rate;
        bulkhead = bulkhead;
        adaptive = adaptive;
        throttle = throttle;
        slo = slo;
        hedge = hedge;
        retry_budget = retry_budget;
        concurrency = concurrency;
        of_timeout = of_timeout;
        of_budget = of_budget;
        of_breaker = of_breaker;
        of_retry = of_retry;
        of_rate = of_rate;
        of_bulkhead = of_bulkhead;
        of_adaptive = of_adaptive;
        of_throttle = of_throttle;
        of_slo = of_slo;
        of_hedge = of_hedge;
        of_retry_budget = of_retry_budget;
        of_concurrency = of_concurrency;
        together =
            sym (ap (value_or opts) e11)
            ∙ ap
                (λ (l : List (PolicyOption fl h)).
                  timeout ++ budget ++ breaker ++ retry ++ rate ++ bulkhead ++ adaptive ++ l
                  ++ hedge ++ retry_budget ++ concurrency)
                (sym (ap (value_or shedders) f2));
      }

  accepted :
      (found opts : List (PolicyOption fl h))
      → elim (check_setup_invariants fl h (apply_options fl h found (unset fl h))) [
        | some e ↦ refused (invalid e)
        | none ↦ valid found
      ]
        ≡ valid opts
      → (found ≡ opts)
        × (check_setup_invariants fl h (apply_options fl h found (unset fl h)) ≡ none)
  accepted found opts e = ground (arith, e)

  -- A configuration that is accepted has its parts, and a setup that NewPolicy takes.
  pub build_options-Parts :
      (opts : List (PolicyOption fl h))
      → build_options fl h parse_duration pc ≡ valid opts
      → Parts opts × (check_setup_invariants fl h (apply_options fl h opts (unset fl h)) ≡ none)
  unfolding build_options
  build_options-Parts opts e =
      let (found, assembled, rest) = bind-valid (assemble fl h parse_duration pc) _ opts e in
      let (same, passed) = accepted found opts rest in
      (
        assemble-Parts opts (assembled ∙ ap valid same),
        subst
            (λ (l : List (PolicyOption fl h)).
              check_setup_invariants fl h (apply_options fl h l (unset fl h)) ≡ none)
            same passed,
      )
