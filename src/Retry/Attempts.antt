-- ===== src/Retry/Attempts.antt =====
-- retry.go: which attempts the loop makes, and what they bring about.
use r8e.Prelude.{
  ℕ, zero, suc, ◌≤◌, ◌≡◌, refl, ap, ◌∙◌, true, List, [], ◌∷◌, ◌++◌, inl, inr, max, arith,
  Bool-cases,
}
use r8e.Prelude.Float.{Float}
use r8e.Errors.{Error}
use r8e.RetryBudget.{RetryBudget, record_failure}
use r8e.Retry.Cases.{quiet, settle_cases}
use r8e.Retry.{
  Result, ok, err, Event, acquires_permit, releases_permit, calls, sleeps, on_retry,
  on_concurrency_budget_exceeded, on_retry_budget_exceeded, on_time_budget_exceeded, Surroundings,
  Run, prepend, called, denied, settle, retry_loop, do_retry,
}

-- The attempts of a trace, and the numbers from `a` on.
pub attempts : List Event → List ℕ
attempts [] = []
attempts (calls n ∷ es) = n ∷ attempts es
attempts (_ ∷ es) = attempts es

abbrev pub up_from : ℕ → ℕ → List ℕ
up_from a zero = []
up_from a (suc n) = a ∷ up_from (suc a) n

attempts-quiet : (es : List Event) → quiet es ≡ true → attempts es ≡ []
unfolding attempts
attempts-quiet [] q = refl
attempts-quiet (calls n ∷ es) q = absurd (cc)
attempts-quiet (acquires_permit n ∷ es) q = absurd (cc)
attempts-quiet (releases_permit n ∷ es) q = absurd (cc)
attempts-quiet (sleeps n ∷ es) q = attempts-quiet es q
attempts-quiet (on_retry n e ∷ es) q = attempts-quiet es q
attempts-quiet (on_concurrency_budget_exceeded ∷ es) q = attempts-quiet es q
attempts-quiet (on_retry_budget_exceeded ∷ es) q = attempts-quiet es q
attempts-quiet (on_time_budget_exceeded ∷ es) q = attempts-quiet es q

module _ {T : Type 0} (fl : Float) (env : Surroundings T) where
  -- The attempts from `a` on, `n` of them and `left` at most, the last with the result `r`.
  abbrev Made : ℕ → ℕ → Run fl env → Type 0
  Made left a r = (n : ℕ) × (n ≤ left) × (attempts r.trace ≡ up_from a n)

  attempts-called : (a : ℕ) (es : List Event) → attempts (called fl env a ++ es) ≡ a ∷ attempts es
  unfolding attempts called
  attempts-called a es = ground arith

  settle-Made :
      (left a : ℕ) (r : Result T) (budget : List (RetryBudget fl)) (next : Error → Run fl env)
      → ((e : Error) → Made left (suc a) (next e))
      → Made left (suc a) (settle fl env left a r budget next)
  unfolding settle attempts prepend
  settle-Made left a (ok v) budget next h = (0, omega arith, refl)
  settle-Made left a (err e) budget next h = elim (settle_cases fl env left a e budget next) [
    | inl ends ↦ (
      0,
      omega arith,
      attempts-quiet (settle fl env left a (err e) budget next).trace ends.no_attempt,
    )
    | inr (_, _, same) ↦
        let (n, k, c) = h e in (n, k, ap (λ (r : Run fl env). attempts r.trace) same ∙ c)
  ]

  retry_loop-Made :
      (left a : ℕ) (budget : List (RetryBudget fl)) (last : Error)
      → Made left a (retry_loop fl env left a budget last)
  unfolding retry_loop attempts prepend
  retry_loop-Made zero a budget last = (0, omega arith, refl)
  retry_loop-Made (suc left) a budget last = elim (Bool-cases (denied fl env a)) [
    | inl d ↦ (0, omega arith, rw d refl)
    | inr g ↦
        let (n, k, c) =
          settle-Made left a (env.fn a) budget
            (λ e. retry_loop fl env left (suc a) (record_failure fl budget) e)
            (λ e. retry_loop-Made left (suc a) (record_failure fl budget) e) in
        (suc n, omega arith, rw g (attempts-called a _ ∙ ap (◌∷◌ a) c))
  ]

  -- Some attempts, the last of them below `k`.
  abbrev Started : ℕ → List (RetryBudget fl) → Error → Type 0
  Started k budget last =
      (n : ℕ) × (1 ≤ n)
      × (n ≤ k)
      × (attempts (retry_loop fl env k 0 budget last).trace ≡ up_from 0 n)

  retry_loop-Started :
      (left : ℕ) (budget : List (RetryBudget fl)) (last : Error) → Started (suc left) budget last
  unfolding retry_loop denied prepend
  retry_loop-Started left budget last =
      let (n, k, c) =
        settle-Made left 0 (env.fn 0) budget
          (λ e. retry_loop fl env left 1 (record_failure fl budget) e)
          (λ e. retry_loop-Made left 1 (record_failure fl budget) e) in
      (suc n, omega arith, omega arith, attempts-called 0 _ ∙ ap (◌∷◌ 0) c)

  Started-loop :
      (k : ℕ) (budget : List (RetryBudget fl)) (last : Error) → 1 ≤ k → Started k budget last
  Started-loop zero budget last h = absurd (omega arith)
  Started-loop (suc left) budget last h = retry_loop-Started left budget last

  -- DoRetry calls `fn` for the attempts 0, 1, 2 and so on in order, once each; at least once, and at
  -- most MaxAttempts times or once.
  pub attempts-do_retry :
      (max_attempts : ℕ) (budget : List (RetryBudget fl))
      → (n : ℕ) × (1 ≤ n)
        × (n ≤ max max_attempts 1)
        × (attempts (do_retry fl env max_attempts budget).trace ≡ up_from 0 n)
  unfolding do_retry
  attempts-do_retry max_attempts budget = Started-loop (max max_attempts 1) budget _ (omega arith)
