-- ===== src/Backoff.antt =====
-- backoff.go: the delays between retries. A delay that the caller computes is a function; the draw of
-- rand.Int64N, below its argument, is an argument.
use r8e.Prelude.{ℕ, ◌%◌, leb, if◌then◌else◌}
use r8e.Prelude.Float.{Float}
use r8e.Errors.{max_int64}

pub data BackoffStrategy : Type 0 where
  backoff_func : (ℕ → ℕ) → BackoffStrategy
  constant_backoff exponential_backoff linear_backoff exponential_jitter_backoff :
      ℕ → BackoffStrategy

module _ (fl : Float) where
  open fl use {Carrier, le, of_int, to_int, add, mul, pow}

  unfoldable pub clamp_duration : Carrier → ℕ
  clamp_duration nanos =
      if le nanos (of_int 0)
      then 0
      else if le (of_int max_int64) nanos
      then max_int64
      else to_int nanos

  -- rand.Int64N of a bound that is positive.
  abbrev pub int64_n : ℕ → ℕ → ℕ
  int64_n draw bound = draw % bound

  unfoldable pub delay : BackoffStrategy → ℕ → ℕ → ℕ
  unfolding clamp_duration
  delay (backoff_func f) attempt draw = f attempt
  delay (constant_backoff d) attempt draw = d
  delay (exponential_backoff base) attempt draw =
      clamp_duration (mul (of_int base) (pow (of_int 2) (of_int attempt)))
  delay (linear_backoff step) attempt draw =
      clamp_duration (mul (of_int step) (add (of_int attempt) (of_int 1)))
  delay (exponential_jitter_backoff base) attempt draw =
      let ceiling = clamp_duration (mul (of_int base) (pow (of_int 2) (of_int attempt))) in
      if leb ceiling 0 then 0 else int64_n draw ceiling
