-- ===== src/Retry/Persistence.antt =====
-- retry.go: the loop goes on until an attempt succeeds.
use r8e.Prelude.{ℕ, suc, ◌≡◌, true, false, List}
use r8e.Prelude.Float.{Float}
use r8e.Errors.{Error}
use r8e.RetryBudget.{RetryBudget, allow_retry}
use r8e.Retry.{err, Surroundings, denied, delay_after, final, outlasts}

module _ {T : Type 0} (fl : Float) (env : Surroundings T) where
  -- Attempt `i` fails, and nothing stands in the way of the next; `budget` is what its charge left.
  pub record Passes (i : ℕ) (budget : List (RetryBudget fl)) : Type 0 where
    pub error : Error
    pub failed : env.fn i ≡ err error
    pub retryable : final fl env error ≡ false
    pub allowed : allow_retry fl budget ≡ true
    pub in_time : outlasts (delay_after fl env i error) (env.remaining i) ≡ false
    pub fires : env.timer_fires i ≡ true
    pub admitted : denied fl env (suc i) ≡ false
