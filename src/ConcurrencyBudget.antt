-- ===== src/ConcurrencyBudget.antt =====
-- concurrencybudget.go: the cap on retry and hedge attempts in flight. The nil budget, which gates
-- nothing, is `none`.
pub mod Permits
use r8e.Prelude.{
  ℕ, ◌+◌, ◌-◌, Bool, true, false, Option, none, some, List, [], ◌∷◌, leb, ltb, max, if◌then◌else◌,
}
use r8e.Prelude.Float.{Float, lt}

module _ (fl : Float) where
  open fl use {Carrier, le, of_int, to_int, mul, div}

  pub record ConcurrencyBudget : Type 0 where
    pub executions : ℕ
    pub in_use : ℕ
    pub max_ratio : Carrier
    pub min_concurrency : ℕ

  pub record ConcurrencyBudgetConfig : Type 0 where
    pub max_ratio : Carrier
    pub min_concurrency : ℕ

  pub data ConcurrencyBudgetOption : Type 0 where
    max_ratio : Carrier → ConcurrencyBudgetOption
    min_concurrency : ℕ → ConcurrencyBudgetOption

  apply_option : ConcurrencyBudgetOption → ConcurrencyBudgetConfig → ConcurrencyBudgetConfig
  apply_option (max_ratio r) cfg = record cfg { max_ratio = r }
  apply_option (min_concurrency n) cfg = record cfg { min_concurrency = n }

  apply_options : List ConcurrencyBudgetOption → ConcurrencyBudgetConfig → ConcurrencyBudgetConfig
  unfolding apply_option
  apply_options [] cfg = cfg
  apply_options (o ∷ os) cfg = apply_options os (apply_option o cfg)

  abbrev default_max_ratio : Carrier
  default_max_ratio = div (of_int 1) (of_int 4)

  -- A minimum is never negative here, so its default is not needed.
  clamp : ConcurrencyBudgetConfig → ConcurrencyBudgetConfig
  clamp c =
      let ratio = if le c.max_ratio (of_int 0) then default_max_ratio else c.max_ratio in
      record c { max_ratio = if lt fl (of_int 1) ratio then of_int 1 else ratio }

  unfoldable pub new_concurrency_budget : List ConcurrencyBudgetOption → ConcurrencyBudget
  unfolding apply_options clamp
  new_concurrency_budget opts =
      let initial : ConcurrencyBudgetConfig = record {
        max_ratio = default_max_ratio;
        min_concurrency = 5;
      } in
      let cfg = clamp (apply_options opts initial) in
      record {
        executions = 0;
        in_use = 0;
        max_ratio = cfg.max_ratio;
        min_concurrency = cfg.min_concurrency;
      }

  unfoldable pub reconfigure : ConcurrencyBudget → List ConcurrencyBudgetOption → ConcurrencyBudget
  unfolding apply_options clamp
  reconfigure b opts =
      let current : ConcurrencyBudgetConfig = record {
        max_ratio = b.max_ratio;
        min_concurrency = b.min_concurrency;
      } in
      let cfg = clamp (apply_options opts current) in
      record b { max_ratio = cfg.max_ratio; min_concurrency = cfg.min_concurrency }

  unfoldable pub limit_locked : ConcurrencyBudget → ℕ
  limit_locked b = max b.min_concurrency (to_int (mul b.max_ratio (of_int b.executions)))

  unfoldable pub enter : Option ConcurrencyBudget → Option ConcurrencyBudget
  enter none = none
  enter (some b) = some (record b { executions = b.executions + 1 })

  unfoldable pub exit : Option ConcurrencyBudget → Option ConcurrencyBudget
  exit none = none
  exit (some b) =
      some (if ltb 0 b.executions then record b { executions = b.executions - 1 } else b)

  unfoldable pub try_acquire : Option ConcurrencyBudget → Option ConcurrencyBudget × Bool
  unfolding limit_locked
  try_acquire none = (none, true)
  try_acquire (some b) =
      if leb (limit_locked b) b.in_use
      then (some b, false)
      else (some (record b { in_use = b.in_use + 1 }), true)

  unfoldable pub release : Option ConcurrencyBudget → Option ConcurrencyBudget
  release none = none
  release (some b) = some (if ltb 0 b.in_use then record b { in_use = b.in_use - 1 } else b)

  unfoldable pub in_use_of : Option ConcurrencyBudget → ℕ
  in_use_of none = 0
  in_use_of (some b) = b.in_use

  unfoldable pub exhausted : Option ConcurrencyBudget → Bool
  unfolding limit_locked
  exhausted none = false
  exhausted (some b) = leb (limit_locked b) b.in_use
