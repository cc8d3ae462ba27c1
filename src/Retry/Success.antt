-- ===== src/Retry/Success.antt =====
-- retry.go: when the loop returns a value.
use r8e.Prelude.{ℕ, suc, ◌+◌, ◌<◌, ◌≡◌, refl, false, List, ◌⊎◌, inl, inr}
use r8e.Prelude.Float.{Float}
use r8e.Errors.{Error}
use r8e.RetryBudget.{RetryBudget, record_success, record_failure}
use r8e.RetryBudget.Exhaustion.{failures}
use r8e.Retry.{Result, ok, err, Surroundings, Run, final, retry_loop}

Result-cases : {T : Type 0} (r : Result T) → ((v : T) × (r ≡ ok v)) ⊎ ((e : Error) × (r ≡ err e))
Result-cases (ok v) = inl (v, refl)
Result-cases (err e) = inr (e, refl)

module _ {T : Type 0} (fl : Float) (env : Surroundings T) where
  abbrev loop_after : ℕ → ℕ → List (RetryBudget fl) → Error → Run fl env
  loop_after left a budget e = retry_loop fl env left (suc a) (record_failure fl budget) e

  -- Attempt `i` failed, and its error may be retried.
  abbrev pub Retryable : ℕ → Type 0
  Retryable i = (e : Error) × (env.fn i ≡ err e) × (final fl env e ≡ false)

  -- Attempt `a + n` returned `v`, and those from `a` on before it failed.
  pub record Succeeds (a : ℕ) (left : ℕ) (budget : List (RetryBudget fl)) (v : T)
      (spent : List (RetryBudget fl)) : Type 0 where
    pub tries : ℕ
    pub in_bound : tries < left
    pub returned : env.fn (a + tries) ≡ ok v
    pub earlier : (i : ℕ) → i < tries → Retryable (a + i)
    pub settled : spent ≡ record_success fl (failures fl tries budget)
