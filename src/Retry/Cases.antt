-- ===== src/Retry/Cases.antt =====
-- retry.go: the two ways on from a failed attempt.
use r8e.Prelude.{ℕ, ◌+◌, ◌<◌, ◌≡◌, Bool, true, false, List, [], ◌∷◌, ◌⊎◌, arith, if◌then◌else◌}
use r8e.Prelude.Float.{Float}
use r8e.Errors.{Error}
use r8e.RetryBudget.{RetryBudget, record_failure}
use r8e.Retry.{
  Result, ok, err, Event, acquires_permit, releases_permit, calls, sleeps, on_retry, Surroundings,
  Run, prepend, delay_after, final, settle,
}

-- The events of a loop that makes no attempt.
abbrev pub quiet : List Event → Bool
quiet [] = true
quiet (calls n ∷ es) = false
quiet (acquires_permit n ∷ es) = false
quiet (releases_permit n ∷ es) = false
quiet (_ ∷ es) = quiet es

abbrev pub is_err {ℓ} : {T : Type ℓ} → Result T → Bool
is_err (ok v) = false
is_err (err e) = true

module _ {T : Type 0} (fl : Float) (env : Surroundings T) where
  abbrev pub waiting : ℕ → Error → List Event
  waiting a e = on_retry (a + 1) e ∷ sleeps (delay_after fl env a e) ∷ []

  -- The loop ends here, with an error; only a failure that may be retried was charged.
  pub record Ends (e : Error) (budget : List (RetryBudget fl)) (r : Run fl env) : Type 0 where
    pub failed : is_err r.result ≡ true
    pub no_attempt : quiet r.trace ≡ true
    pub charged : r.budget ≡ (if final fl env e then budget else record_failure fl budget)

  pub settle_cases :
      (left a : ℕ) (e : Error) (budget : List (RetryBudget fl)) (next : Error → Run fl env)
      → Ends e budget (settle fl env left a (err e) budget next)
        ⊎ ((final fl env e ≡ false)
            × (0 < left)
            × (settle fl env left a (err e) budget next ≡ prepend fl env (waiting a e) (next e)))
  unfolding settle
  settle_cases left a e budget next = ground arith
