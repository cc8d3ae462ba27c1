-- ===== src/Tests/Retry.antt =====
-- retry.go, retrybudget.go and concurrencybudget.go at concrete inputs, over numbers of
-- thousandths.
use r8e.Prelude.{ℕ, zero, suc, ◌≤◌, ◌≡◌, refl, true, List, [], ◌∷◌, max, none, All}
use r8e.Prelude.Thousandths.{thousandths, thousandths_laws}
use r8e.Errors.{foreign, retry_after_error, is_permanent, retry_after_from_error}
use r8e.RetryBudget.{
  RetryBudget, new_retry_budget, max_tokens, token_ratio, record_failure, allow_retry,
}
use r8e.RetryBudget.Bounds.{
  IsValid, new_retry_budget-IsValid, succeeds, fails, reconfigures, run, run-IsValid,
}
use r8e.ConcurrencyBudget.{min_concurrency}
use r8e.ConcurrencyBudget.Permits.{
  System, Reach, start, later, enters, acquires, Counted, Reach-Counted,
}
use r8e.Retry.{Result, ok, err, Surroundings, Run, do_retry, final}
use r8e.Retry.Attempts.{attempts, up_from, attempts-do_retry}
use r8e.Retry.Permits.{governed, governed-do_retry}

abbrev budget : List (RetryBudget thousandths)
budget = new_retry_budget thousandths (max_tokens 10 ∷ token_ratio 500 ∷ []) ∷ []

-- A budget with an ancestor.
abbrev chained : List (RetryBudget thousandths)
chained = new_retry_budget thousandths (max_tokens 4 ∷ []) ∷ budget

run-IsValid_example : All (IsValid thousandths thousandths_laws) (
    run thousandths thousandths_laws chained
      (fails 0 ∷ reconfigures 1 (max_tokens 8 ∷ []) ∷ succeeds 1 ∷ []))
run-IsValid_example =
    run-IsValid thousandths thousandths_laws chained
      (fails 0 ∷ reconfigures 1 (max_tokens 8 ∷ []) ∷ succeeds 1 ∷ [])
      (
        new_retry_budget-IsValid thousandths thousandths_laws (max_tokens 4 ∷ []),
        (
          new_retry_budget-IsValid thousandths thousandths_laws
              (max_tokens 10 ∷ token_ratio 500 ∷ []),
          tt,
        ),
      )

-- One execution and one retry of it are in flight, under a minimum of one.
abbrev permits_reached : (s : System thousandths) × Reach thousandths s
permits_reached = (_, later (later (start (min_concurrency 1 ∷ [])) (enters _)) (acquires _))

Reach-Counted_example : Counted thousandths (permits_reached.0)
Reach-Counted_example = Reach-Counted thousandths (permits_reached.1)

-- The first two attempts fail, the second with a Retry-After of 400, and the third returns 7.
abbrev flaky : ℕ → Result ℕ
flaky zero = err (foreign 1)
flaky (suc zero) = err (retry_after_error (foreign 2) 400)
flaky (suc (suc n)) = ok 7

abbrev env : Surroundings ℕ
env = record {
  fn = flaky;
  strategy = λ n. 100;
  draw = λ n. 0;
  gated = true;
  permitted = λ n. true;
  remaining = λ n. none;
  timer_fires = λ n. true;
  context_error = foreign 9;
  retry_if = none;
  max_delay = 300;
}

abbrev after : Run thousandths env
after = do_retry thousandths env 5 budget

attempts-do_retry_example : (n : ℕ) × (1 ≤ n) × (n ≤ max 5 1) × (attempts after.trace ≡ up_from 0 n)
attempts-do_retry_example = attempts-do_retry thousandths env 5 budget

run_of_flaky : after.result ≡ ok 7
unfolding do_retry final is_permanent record_failure allow_retry new_retry_budget
    retry_after_from_error
run_of_flaky = refl

governed-do_retry_example : governed thousandths env none after.trace ≡ true
governed-do_retry_example = governed-do_retry thousandths env 5 budget
