-- ===== src/Retry/Waits.antt =====
-- retry.go: what holds of every event of a run, so of every wait and every permit.
use r8e.Prelude.{
  ℕ, zero, suc, ◌≡◌, refl, sym, ap, ◌∙◌, Bool, true, ◌&&◌, ◌||◌, List, [], ◌∷◌, ◌++◌, inl, inr, leb,
  max, arith, Bool-cases,
}
use r8e.Prelude.Float.{Float}
use r8e.Errors.{Error}
use r8e.RetryBudget.{RetryBudget, record_failure}
use r8e.Retry.{
  Result, ok, err, Event, sleeps, Surroundings, Run, prepend, called, denied, delay_after,
  next_backoff_delay, wait, after_failure, settle, retry_loop, do_retry,
}

abbrev pub every : (Event → Bool) → List Event → Bool
every p [] = true
every p (e ∷ es) = p e && every p es

every-++ :
    (p : Event → Bool) (xs ys : List Event)
    → every p xs ≡ true
    → every p ys ≡ true
    → every p (xs ++ ys) ≡ true
every-++ p [] ys hx hy = hy
every-++ p (x ∷ xs) ys hx hy = elim (Bool-cases (p x)) [
  | inl t ↦ rw t (every-++ p xs ys (sym (ap (λ (b : Bool). b && every p xs) t) ∙ hx) hy)
  | inr f ↦ absurd (cc (sym (ap (λ (b : Bool). b && every p xs) f) ∙ hx))
]

module _ {T : Type 0} (fl : Float) (env : Surroundings T) where
  -- No wait is longer than MaxDelay, where one is set.
  abbrev pub within_cap : Event → Bool
  within_cap (sleeps d) = leb env.max_delay 0 || leb d env.max_delay
  within_cap _ = true

  capped : (a : ℕ) (e : Error) → within_cap (sleeps (delay_after fl env a e)) ≡ true
  unfolding delay_after next_backoff_delay
  capped a e = ground arith

  settle-within_cap :
      (left a : ℕ) (r : Result T) (budget : List (RetryBudget fl)) (next : Error → Run fl env)
      → ((e : Error) → every within_cap (next e).trace ≡ true)
      → every within_cap (settle fl env left a r budget next).trace ≡ true
  unfolding settle after_failure wait prepend
  settle-within_cap left a (ok v) budget next h = refl
  settle-within_cap left a (err e) budget next h = ground (arith, capped a e, h e)

  called-within_cap : (a : ℕ) → every within_cap (called fl env a) ≡ true
  unfolding called
  called-within_cap a = ground arith

  retry_loop-within_cap :
      (left a : ℕ) (budget : List (RetryBudget fl)) (last : Error)
      → every within_cap (retry_loop fl env left a budget last).trace ≡ true
  unfolding retry_loop prepend
  retry_loop-within_cap zero a budget last = refl
  retry_loop-within_cap (suc left) a budget last = elim (Bool-cases (denied fl env a)) [
    | inl d ↦ rw d refl
    | inr g ↦ rw g (
        every-++ within_cap (called fl env a) _ (called-within_cap a) (
          settle-within_cap left a (env.fn a) budget _
            (λ e. retry_loop-within_cap left (suc a) (record_failure fl budget) e)))
  ]

  -- No wait between two attempts is longer than MaxDelay, where one is set, whatever the strategy's
  -- delays and whatever Retry-After the errors carry.
  pub do_retry-within_cap :
      (max_attempts : ℕ) (budget : List (RetryBudget fl))
      → every within_cap (do_retry fl env max_attempts budget).trace ≡ true
  unfolding do_retry
  do_retry-within_cap max_attempts budget = retry_loop-within_cap (max max_attempts 1) 0 budget _
