-- ===== src/RetryBudget/Exhaustion.antt =====
-- retrybudget.go: how many failures in a row stop the retries.
use r8e.Prelude.{ℕ, zero, suc, ◌-◌, ◌*◌, ◌^◌, ◌≤◌, ◌≡◌, List, [], ◌∷◌, ltb, arith, ap, ◌∙◌}
use r8e.Prelude.Float.{Float, FloatExact}
use r8e.RetryBudget.{RetryBudget, record_failure, allow_retry}

module _ (fl : Float) where
  -- The budget after `k` failures.
  unfoldable pub failures : ℕ → List (RetryBudget fl) → List (RetryBudget fl)
  failures zero bs = bs
  failures (suc k) bs = failures k (record_failure fl bs)

module _ (fl : Float) (exact : FloatExact fl) where
  open fl use {Carrier, le, of_int}
  open exact use {le_exact, sub_one, zero_sub_one, le_half}

  -- A budget of `n` tokens, `t` of which are left.
  abbrev pub holding : ℕ → Carrier → ℕ → List (RetryBudget fl)
  holding n ratio t = record { tokens = of_int t; max_tokens = of_int n; ratio = ratio } ∷ []

  record_failure-holding :
      (n t : ℕ) (ratio : Carrier)
      → t ≤ 2 ^ 53
      → record_failure fl (holding n ratio t) ≡ holding n ratio (t - 1)
  unfolding record_failure
  record_failure-holding n zero ratio h = ground (arith, zero_sub_one)
  record_failure-holding n (suc t) ratio h =
      let e : suc t - 1 ≡ t = omega arith in
      rw (e, sub_one t (omega arith)) (ground (arith, le_exact t 0))

  failures-holding :
      (k n t : ℕ) (ratio : Carrier)
      → t ≤ 2 ^ 53
      → failures fl k (holding n ratio t) ≡ holding n ratio (t - k)
  unfolding failures
  failures-holding zero n t ratio h = ap (holding n ratio) (omega arith)
  failures-holding (suc k) n t ratio h =
      ap (failures fl k) (record_failure-holding n t ratio h)
      ∙ failures-holding k n (t - 1) ratio (omega arith)
      ∙ ap (holding n ratio) (omega arith)

  -- A full budget of n tokens with no ancestor allows a retry after k failures in a row exactly as
  -- long as more than half of its tokens are left: while n is below 2 * (n - k).
  pub allow_retry-failures :
      (k n : ℕ) (ratio : Carrier)
      → n ≤ 2 ^ 53
      → allow_retry fl (failures fl k (holding n ratio n)) ≡ ltb n (2 * (n - k))
  unfolding allow_retry
  allow_retry-failures k n ratio h =
      rw (failures-holding k n n ratio h, le_half (n - k) n (omega arith) h) (ground arith)
