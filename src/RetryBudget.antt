-- ===== src/RetryBudget.antt =====
-- retrybudget.go: the token budget of retries. A budget with its ancestors is the list of them, the
-- budget itself first; the nil budget is the empty list.
pub mod Bounds
pub mod Exhaustion
use r8e.Prelude.{ℕ, Bool, true, false, not, ◌&&◌, List, [], ◌∷◌, ltb, if◌then◌else◌}
use r8e.Prelude.Float.{Float, lt, fmin, fmax}

module _ (fl : Float) where
  open fl use {Carrier, le, of_int, to_int, add, sub, mul, div}

  pub record RetryBudgetConfig : Type 0 where
    pub max_tokens : ℕ
    pub ratio : Carrier

  pub data RetryBudgetOption : Type 0 where
    max_tokens : ℕ → RetryBudgetOption
    token_ratio : Carrier → RetryBudgetOption

  pub record RetryBudget : Type 0 where
    pub tokens : Carrier
    pub max_tokens : Carrier
    pub ratio : Carrier

  apply_option : RetryBudgetOption → RetryBudgetConfig → RetryBudgetConfig
  apply_option (max_tokens n) cfg = record cfg { max_tokens = n }
  apply_option (token_ratio r) cfg = record cfg { ratio = r }

  apply_options : List RetryBudgetOption → RetryBudgetConfig → RetryBudgetConfig
  unfolding apply_option
  apply_options [] cfg = cfg
  apply_options (o ∷ os) cfg = apply_options os (apply_option o cfg)

  abbrev default_ratio : Carrier
  default_ratio = div (of_int 1) (of_int 10)

  clamp : RetryBudgetConfig → RetryBudgetConfig
  clamp c = record {
    max_tokens = if ltb c.max_tokens 1 then 10 else c.max_tokens;
    ratio = if le c.ratio (of_int 0) then default_ratio else c.ratio;
  }

  from_config : RetryBudgetConfig → RetryBudget
  from_config cfg = record {
    tokens = of_int cfg.max_tokens;
    max_tokens = of_int cfg.max_tokens;
    ratio = cfg.ratio;
  }

  unfoldable pub new_retry_budget : List RetryBudgetOption → RetryBudget
  unfolding apply_options clamp from_config
  new_retry_budget opts =
      let initial : RetryBudgetConfig = record { max_tokens = 10; ratio = default_ratio } in
      from_config (clamp (apply_options opts initial))

  -- Rescales the tokens to a new capacity.
  resized : RetryBudget → RetryBudgetConfig → RetryBudget
  resized b cfg =
      let new_max = of_int cfg.max_tokens in
      let scaled =
        if lt fl (of_int 0) b.max_tokens
        then mul b.tokens (div new_max b.max_tokens)
        else new_max in
      record {
        tokens = fmin fl (fmax fl scaled (of_int 0)) new_max;
        max_tokens = new_max;
        ratio = cfg.ratio;
      }

  unfoldable pub reconfigure : RetryBudget → List RetryBudgetOption → RetryBudget
  unfolding apply_options clamp resized
  reconfigure b opts =
      let current : RetryBudgetConfig = record {
        max_tokens = to_int b.max_tokens;
        ratio = b.ratio;
      } in
      resized b (clamp (apply_options opts current))

  unfoldable pub record_success : List RetryBudget → List RetryBudget
  record_success [] = []
  record_success (b ∷ parents) =
      record b { tokens = fmin fl (add b.tokens b.ratio) b.max_tokens } ∷ record_success parents

  unfoldable pub record_failure : List RetryBudget → List RetryBudget
  record_failure [] = []
  record_failure (b ∷ parents) =
      record b { tokens = fmax fl (sub b.tokens (of_int 1)) (of_int 0) } ∷ record_failure parents

  unfoldable pub allow_retry_local : RetryBudget → Bool
  allow_retry_local b = lt fl (div b.max_tokens (of_int 2)) b.tokens

  unfoldable pub allow_retry : List RetryBudget → Bool
  unfolding allow_retry_local
  allow_retry [] = true
  allow_retry (b ∷ parents) = allow_retry_local b && allow_retry parents

  unfoldable pub tokens_of : List RetryBudget → Carrier
  tokens_of [] = of_int 0
  tokens_of (b ∷ parents) = b.tokens

  unfoldable pub exhausted : List RetryBudget → Bool
  unfolding allow_retry_local
  exhausted [] = false
  exhausted (b ∷ parents) = not (allow_retry_local b)
