-- ===== src/Retry/Permits.antt =====
-- retry.go: the permits of the concurrency budget that the retries take.
use r8e.Prelude.{
  ℕ, zero, suc, ◌≡◌, refl, Bool, true, false, not, ◌&&◌, ◌||◌, Option, none, some, List, [], ◌∷◌,
  ◌++◌, inl, inr, leb, ◌==◌, max, arith, Bool-cases,
}
use r8e.Prelude.Float.{Float}
use r8e.Errors.{Error}
use r8e.RetryBudget.{RetryBudget, record_failure}
use r8e.Retry.{
  Result, ok, err, Event, acquires_permit, releases_permit, calls, sleeps, on_retry,
  on_concurrency_budget_exceeded, on_retry_budget_exceeded, on_time_budget_exceeded, Surroundings,
  Run, prepend, called, denied, wait, after_failure, settle, retry_loop, do_retry,
}

module _ {T : Type 0} (fl : Float) (env : Surroundings T) where
  -- Whether permits are taken where they must be and given back at once: a gated retry runs only while
  -- its own permit, which was granted, is held; a permit is held for the call of its attempt alone, so
  -- never during a wait, and none is left. The first argument is the permit held.
  pub governed : Option ℕ → List Event → Bool
  governed none [] = true
  governed none (calls n ∷ es) = (not env.gated || leb n 0) && governed none es
  governed none (acquires_permit n ∷ es) = env.permitted n && governed (some n) es
  governed none (releases_permit n ∷ es) = false
  governed none (sleeps d ∷ es) = governed none es
  governed none (on_retry n e ∷ es) = governed none es
  governed none (on_concurrency_budget_exceeded ∷ es) = governed none es
  governed none (on_retry_budget_exceeded ∷ es) = governed none es
  governed none (on_time_budget_exceeded ∷ es) = governed none es
  governed (some m) [] = false
  governed (some m) (calls n ∷ es) = (m == n) && governed (some m) es
  governed (some m) (releases_permit n ∷ es) = (m == n) && governed none es
  governed (some m) (_ ∷ es) = false

  governed-called :
      (a : ℕ) (es : List Event)
      → denied fl env a ≡ false
      → governed none es ≡ true
      → governed none (called fl env a ++ es) ≡ true
  unfolding called denied governed
  governed-called a es g h = ground (arith, h, g)

  governed-settle :
      (left a : ℕ) (r : Result T) (budget : List (RetryBudget fl)) (next : Error → Run fl env)
      → ((e : Error) → governed none (next e).trace ≡ true)
      → governed none (settle fl env left a r budget next).trace ≡ true
  unfolding settle after_failure wait prepend governed
  governed-settle left a (ok v) budget next h = refl
  governed-settle left a (err e) budget next h = ground (arith, h e)

  governed-retry_loop :
      (left a : ℕ) (budget : List (RetryBudget fl)) (last : Error)
      → governed none (retry_loop fl env left a budget last).trace ≡ true
  unfolding retry_loop prepend governed
  governed-retry_loop zero a budget last = refl
  governed-retry_loop (suc left) a budget last = elim (Bool-cases (denied fl env a)) [
    | inl d ↦ rw d refl
    | inr g ↦ rw g (
        governed-called a _ g (
          governed-settle left a (env.fn a) budget _
            (λ e. governed-retry_loop left (suc a) (record_failure fl budget) e)))
  ]

  -- Under a concurrency budget every retry runs with a permit of its own that was granted, each permit
  -- is held for the call of its attempt only, never during a wait, and DoRetry leaves none behind.
  pub governed-do_retry :
      (max_attempts : ℕ) (budget : List (RetryBudget fl))
      → governed none (do_retry fl env max_attempts budget).trace ≡ true
  unfolding do_retry
  governed-do_retry max_attempts budget = governed-retry_loop (max max_attempts 1) 0 budget _
