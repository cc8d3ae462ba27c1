-- ===== src/RetryBudget/Bounds.antt =====
-- retrybudget.go: the tokens stay between none and all, and when retries stop.
use r8e.Prelude.{ℕ, zero, suc, ◌≡◌, true, List, [], ◌∷◌, All, arith}
use r8e.Prelude.Float.{Float, FloatLaws, fmin, fmax}
use r8e.RetryBudget.{
  RetryBudget, RetryBudgetOption, RetryBudgetConfig, apply_options, default_ratio, clamp,
  from_config, resized, new_retry_budget, reconfigure, record_success, record_failure,
}

module _ (fl : Float) (laws : FloatLaws fl) where
  open fl use {Carrier, le, of_int, to_int, add, sub, div}
  open laws use {order, of_int_mono, of_int_pos, div_nonneg, add_nonneg, sub_le}
  open order use {le_refl, le_trans, le_total}

  pub record IsValid (b : RetryBudget fl) : Type 0 where
    pub tokens_nonneg : le (of_int 0) b.tokens ≡ true
    pub tokens_le_max : le b.tokens b.max_tokens ≡ true
    pub ratio_nonneg : le (of_int 0) b.ratio ≡ true

  clamp-nonneg : (c : RetryBudgetConfig fl) → le (of_int 0) (clamp fl c).ratio ≡ true
  unfolding clamp
  clamp-nonneg c = ground (
    arith,
    of_int_mono 0 1,
    of_int_pos 10,
    div_nonneg (of_int 1) (of_int 10),
    le_total (of_int 0) c.ratio,
  )

  from_config-IsValid :
      (cfg : RetryBudgetConfig fl) → le (of_int 0) cfg.ratio ≡ true → IsValid (from_config fl cfg)
  unfolding from_config
  from_config-IsValid cfg h =
      ground (arith, of_int_mono 0 cfg.max_tokens, le_refl (of_int cfg.max_tokens))

  pub new_retry_budget-IsValid :
      (opts : List (RetryBudgetOption fl)) → IsValid (new_retry_budget fl opts)
  unfolding new_retry_budget
  new_retry_budget-IsValid opts =
      let initial : RetryBudgetConfig fl = record { max_tokens = 10; ratio = default_ratio fl } in
      let cfg = apply_options fl opts initial in
      from_config-IsValid (clamp fl cfg) (clamp-nonneg cfg)

  bounded :
      (x : Carrier) (n : ℕ)
      → (le (of_int 0) (fmin fl (fmax fl x (of_int 0)) (of_int n)) ≡ true)
        × (le (fmin fl (fmax fl x (of_int 0)) (of_int n)) (of_int n) ≡ true)
  bounded x n = ground (
    arith,
    le_total x (of_int 0),
    le_total x (of_int n),
    le_refl (of_int n),
    le_refl (of_int 0),
    of_int_mono 0 n,
  )

  resized-IsValid :
      (b : RetryBudget fl) (cfg : RetryBudgetConfig fl)
      → le (of_int 0) cfg.ratio ≡ true
      → IsValid (resized fl b cfg)
  unfolding resized
  resized-IsValid b cfg h = record {
    tokens_nonneg = (bounded _ cfg.max_tokens).0;
    tokens_le_max = (bounded _ cfg.max_tokens).1;
    ratio_nonneg = h;
  }

  -- The final clamp alone keeps the tokens in range.
  reconfigure-IsValid :
      (b : RetryBudget fl) (opts : List (RetryBudgetOption fl)) → IsValid (reconfigure fl b opts)
  unfolding reconfigure
  reconfigure-IsValid b opts =
      let current : RetryBudgetConfig fl = record {
        max_tokens = to_int b.max_tokens;
        ratio = b.ratio;
      } in
      let cfg = apply_options fl opts current in resized-IsValid b (clamp fl cfg) (clamp-nonneg cfg)

  record_success-IsValid :
      (bs : List (RetryBudget fl)) → All IsValid bs → All IsValid (record_success fl bs)
  unfolding record_success
  record_success-IsValid [] v = tt
  record_success-IsValid (b ∷ bs) (v, vs) = (
    ground (
      arith,
      add_nonneg b.tokens b.ratio,
      le_refl b.max_tokens,
      le_trans (of_int 0) b.tokens b.max_tokens,
    ),
    record_success-IsValid bs vs,
  )

  record_failure-IsValid :
      (bs : List (RetryBudget fl)) → All IsValid bs → All IsValid (record_failure fl bs)
  unfolding record_failure
  record_failure-IsValid [] v = tt
  record_failure-IsValid (b ∷ bs) (v, vs) = (
    ground (
      arith,
      sub_le b.tokens (of_int 1),
      of_int_mono 0 1,
      le_refl (of_int 0),
      le_total (sub b.tokens (of_int 1)) (of_int 0),
      le_trans (of_int 0) b.tokens b.max_tokens,
      le_trans (sub b.tokens (of_int 1)) b.tokens b.max_tokens,
    ),
    record_failure-IsValid bs vs,
  )

  -- An operation on one budget of a chain and its ancestors, which leaves those below it alone.
  pub on_ancestor :
      ℕ
      → (List (RetryBudget fl) → List (RetryBudget fl))
      → List (RetryBudget fl)
      → List (RetryBudget fl)
  on_ancestor zero f bs = f bs
  on_ancestor (suc n) f [] = []
  on_ancestor (suc n) f (b ∷ bs) = b ∷ on_ancestor n f bs

  pub reconfigure_first :
      List (RetryBudgetOption fl) → List (RetryBudget fl) → List (RetryBudget fl)
  reconfigure_first opts [] = []
  reconfigure_first opts (b ∷ bs) = reconfigure fl b opts ∷ bs

  -- An outcome that is recorded at the budget of the chain with the given number, as its own policies do and,
  -- at an ancestor, those of any other budget below it, or a Reconfigure of that budget.
  pub data Call : Type 0 where
    succeeds fails : ℕ → Call
    reconfigures : ℕ → List (RetryBudgetOption fl) → Call

  pub step : List (RetryBudget fl) → Call → List (RetryBudget fl)
  unfolding on_ancestor reconfigure_first
  step bs (succeeds n) = on_ancestor n (record_success fl) bs
  step bs (fails n) = on_ancestor n (record_failure fl) bs
  step bs (reconfigures n opts) = on_ancestor n (reconfigure_first opts) bs

  pub run : List (RetryBudget fl) → List Call → List (RetryBudget fl)
  unfolding step
  run bs [] = bs
  run bs (c ∷ cs) = run (step bs c) cs

  on_ancestor-IsValid :
      (n : ℕ) (f : List (RetryBudget fl) → List (RetryBudget fl)) (bs : List (RetryBudget fl))
      → ((l : List (RetryBudget fl)) → All IsValid l → All IsValid (f l))
      → All IsValid bs
      → All IsValid (on_ancestor n f bs)
  unfolding on_ancestor
  on_ancestor-IsValid zero f bs h v = h bs v
  on_ancestor-IsValid (suc n) f [] h v = v
  on_ancestor-IsValid (suc n) f (b ∷ bs) h (v, vs) = (v, on_ancestor-IsValid n f bs h vs)

  reconfigure_first-IsValid :
      (opts : List (RetryBudgetOption fl)) (bs : List (RetryBudget fl))
      → All IsValid bs
      → All IsValid (reconfigure_first opts bs)
  unfolding reconfigure_first
  reconfigure_first-IsValid opts [] v = v
  reconfigure_first-IsValid opts (b ∷ bs) (v, vs) = (reconfigure-IsValid b opts, vs)

  step-IsValid : (bs : List (RetryBudget fl)) (c : Call) → All IsValid bs → All IsValid (step bs c)
  unfolding step
  step-IsValid bs (succeeds n) v =
      on_ancestor-IsValid n (record_success fl) bs record_success-IsValid v
  step-IsValid bs (fails n) v =
      on_ancestor-IsValid n (record_failure fl) bs record_failure-IsValid v
  step-IsValid bs (reconfigures n opts) v =
      on_ancestor-IsValid n (reconfigure_first opts) bs (reconfigure_first-IsValid opts) v

  -- In a chain of budgets, each with tokens between 0 and its capacity and a ratio that is not negative, this
  -- stays so for all of them whatever outcomes are recorded at any of them and however any of them is
  -- reconfigured.
  pub run-IsValid :
      (bs : List (RetryBudget fl)) (cs : List Call) → All IsValid bs → All IsValid (run bs cs)
  unfolding run
  run-IsValid bs [] v = v
  run-IsValid bs (c ∷ cs) v = run-IsValid (step bs c) cs (step-IsValid bs c v)
