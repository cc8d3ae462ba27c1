-- ===== src/Hedge/Answers.antt =====
-- hedge.go: what a hedged call returns, and the permit of its hedge.
use r8e.Prelude.{
  ℕ, ◌+◌, ◌≤◌, ◌≡◌, refl, sym, ap, ◌∙◌, Bool, true, false, not, ◌&&◌, ◌||◌, Option, none, some,
  arith, ◌⊎◌, inl, inr, Bool-cases,
}
use r8e.Prelude.Float.{Float}
use r8e.Errors.{Error}
use r8e.Retry.{Result, err}
use r8e.ConcurrencyBudget.{ConcurrencyBudget, try_acquire, release}
use r8e.Timeout.{before, before_any}
use r8e.Timeout.Ceiling.{before_cases, before_any_cases}
use r8e.Hedge.{
  Surroundings, Run, answer, is_ok, hedged, wait_for_primary, wait_for_results, do_hedge, settled,
}
use r8e.Hedge.Race.{in_turn_cases, do_hedge_cases, failed}

module _ {ℓ} {T : Type ℓ} (fl : Float) (env : Surroundings T) where
  open env use {primary, hedge, primary_takes, hedge_takes, cancelled_at, over_hedge, over_end}

  -- A time at which the context may cut off a run: no success came before it, and not both results did, or
  -- not the one result if no hedge was launched.
  abbrev pub Cut : ℕ → Bool → ℕ → Type 0
  Cut delay triggered c =
      ((is_ok primary ≡ false) ⊎ (c ≤ primary_takes))
      × ((triggered ≡ false) ⊎ (is_ok hedge ≡ false) ⊎ (c ≤ delay + hedge_takes))
      × ((c ≤ primary_takes) ⊎ ((triggered ≡ true) × (c ≤ delay + hedge_takes)))

  -- The context has ended with the error, before the call or in it.
  pub data Ended (delay : ℕ) (triggered : Bool) : Error → Type 0 where
    at_once : (e : Error) → env.ended ≡ some e → triggered ≡ false → Ended delay triggered e
    in_call :
        (c : ℕ)
        → env.ended ≡ none
        → cancelled_at ≡ some c
        → Cut delay triggered c
        → Ended delay triggered env.context_error

  -- Whose answer a run returns: that of the ended context, that of the primary attempt, unless it failed
  -- and a hedge succeeded, or that of a hedge, unless it failed and the primary attempt succeeded.
  pub data Answered (delay : ℕ) (run : Run fl env) : Type ℓ where
    by_context :
        (e : Error)
        → run.result ≡ err e
        → Ended delay run.on_hedge_triggered e
        → run.on_hedge_won ≡ false
        → Answered delay run
    by_primary :
        env.ended ≡ none
        → run.result ≡ primary
        → run.on_hedge_won ≡ false
        → (is_ok primary ≡ true) ⊎ (run.on_hedge_triggered ≡ false) ⊎ (is_ok hedge ≡ false)
        → Answered delay run
    by_hedge :
        env.ended ≡ none
        → run.result ≡ hedge
        → run.on_hedge_triggered ≡ true
        → run.on_hedge_won ≡ is_ok hedge
        → (is_ok hedge ≡ true) ⊎ (is_ok primary ≡ false)
        → Answered delay run

  release-try_acquire :
      (budget : Option (ConcurrencyBudget fl))
      → (try_acquire fl budget).1 ≡ true
      → release fl (try_acquire fl budget).0 ≡ budget
  unfolding try_acquire release
  release-try_acquire none h = refl
  release-try_acquire (some b) h = ground (arith, h)

  try_acquire-denied :
      (budget : Option (ConcurrencyBudget fl))
      → (try_acquire fl budget).1 ≡ false
      → (try_acquire fl budget).0 ≡ budget
  unfolding try_acquire
  try_acquire-denied none h = refl
  try_acquire-denied (some b) h = ground (arith, h)

  wait_for_primary-Answered :
      (budget : Option (ConcurrencyBudget fl)) (exceeded : Bool) (delay : ℕ)
      → env.ended ≡ none
      → Answered delay (wait_for_primary fl env budget exceeded)
  unfolding wait_for_primary answer
  wait_for_primary-Answered budget exceeded delay live =
      elim (before_any_cases over_end primary_takes cancelled_at) [
        | inl (t, _) ↦ by_primary live (rw t refl) refl (inr (inl refl))
        | inr (c, e, f, le) ↦
            by_context env.context_error (rw f refl) (in_call c live e (inr le, inl refl, inl le))
              refl
      ]

  and_false : (b : Bool) → false ≡ (b && false)
  and_false true = refl
  and_false false = refl

  -- A time by which the result that a run takes has come.
  abbrev Taken : ℕ → ℕ → Type 0
  Taken delay t =
      ((is_ok primary ≡ false) ⊎ (t ≤ primary_takes))
      × ((is_ok hedge ≡ false) ⊎ (t ≤ delay + hedge_takes))
      × ((t ≤ primary_takes) ⊎ (t ≤ delay + hedge_takes))

  Taken-Cut : (delay t c : ℕ) → c ≤ t → Taken delay t → Cut delay true c
  Taken-Cut delay t c le (p, h, m) = (
    elim p [ inl f ↦ inl f | inr k ↦ inr (omega (arith, le, k)) ],
    inr (elim h [ inl f ↦ inl f | inr k ↦ inr (omega (arith, le, k)) ]),
    elim m [ inl k ↦ inl (omega (arith, le, k)) | inr k ↦ inr (refl, omega (arith, le, k)) ],
  )

  hedged-Answered :
      (budget : Option (ConcurrencyBudget fl)) (delay : ℕ) (won flag : Bool) (t : ℕ) (r : Result T)
      → env.ended ≡ none
      → won ≡ (before_any over_end t cancelled_at && flag)
      → Taken delay t
      → (before_any over_end t cancelled_at ≡ true
          → Answered delay (hedged fl env budget flag (r, t)))
      → Answered delay (hedged fl env budget won (answer fl env t r))
  unfolding hedged answer
  hedged-Answered budget delay won flag t r live w taken h =
      elim (before_any_cases over_end t cancelled_at) [
        | inl (u, _) ↦ let same : won ≡ flag = w ∙ rw u refl in rw (u, same) (h u)
        | inr (c, e, v, le) ↦
            let lost : won ≡ false = w ∙ rw v refl in
            by_context env.context_error (rw v refl)
              (in_call c live e (Taken-Cut delay t c le taken)) lost
      ]

  succeeded : (seen won : Bool) → seen ≡ true → (not seen || won) ≡ true → won ≡ true
  succeeded seen won u f = ground (arith, u, f)

  wait_for_results-Answered :
      (budget : Option (ConcurrencyBudget fl)) (delay : ℕ)
      → env.ended ≡ none
      → Answered delay (wait_for_results fl env budget delay)
  unfolding wait_for_results hedged
  wait_for_results-Answered budget delay live =
      let h = delay + hedge_takes in
      elim (before_cases over_hedge primary_takes h) [
        | inl (t, le) ↦
            let late : (is_ok primary ≡ false) → Taken delay h =
              λ f. (inl f, inr (omega arith), inr (omega arith)) in
            rw t (
              in_turn_cases fl env (Answered delay) budget true primary primary_takes hedge h
                (λ f.
                  hedged-Answered budget delay _ false primary_takes primary live refl
                    (inr (omega arith), inr le, inl (omega arith))
                    (λ u. by_primary live refl refl (inl (succeeded _ _ u f))))
                (λ f k.
                  hedged-Answered budget delay _ true h hedge live refl
                    (late (failed fl env _ primary f))
                    (λ u. by_hedge live refl refl (sym k) (inl k)))
                (λ f k.
                  hedged-Answered budget delay false false h primary live (and_false _)
                    (late (failed fl env _ primary f))
                    (λ u. by_primary live refl refl (inr (inr k)))))
        | inr (t, le) ↦
            let late : (is_ok hedge ≡ false) → Taken delay primary_takes =
              λ f. (inr (omega arith), inl f, inl (omega arith)) in
            rw t (
              in_turn_cases fl env (Answered delay) budget false hedge h primary primary_takes
                (λ f.
                  hedged-Answered budget delay _ true h hedge live refl
                    (inr le, inr (omega arith), inr (omega arith))
                    (λ u.
                      by_hedge live refl refl (sym (succeeded _ _ u f)) (inl (succeeded _ _ u f))))
                (λ f k.
                  hedged-Answered budget delay _ false primary_takes primary live refl
                    (late (failed fl env _ hedge f)) (λ u. by_primary live refl refl (inl k)))
                (λ f k.
                  hedged-Answered budget delay false false primary_takes hedge live (and_false _)
                    (late (failed fl env _ hedge f))
                    (λ u. by_hedge live refl refl (sym (failed fl env _ hedge f)) (inr k))))
      ]

  wait_for_results_holds :
      (budget : Option (ConcurrencyBudget fl)) (delay : ℕ)
      → let run = wait_for_results fl env budget delay in
        (run.on_hedge_triggered ≡ true) × (run.budget ≡ budget)
  unfolding wait_for_results hedged
  wait_for_results_holds budget delay =
      let h = delay + hedge_takes in
      let Holds = λ (run : Run fl env). (run.on_hedge_triggered ≡ true) × (run.budget ≡ budget) in
      elim (Bool-cases (before over_hedge primary_takes h)) [
        | inl t ↦ rw t (
            in_turn_cases fl env Holds budget true primary primary_takes hedge h (λ f. (refl, refl))
              (λ f k. (refl, refl)) (λ f k. (refl, refl)))
        | inr t ↦ rw t (
            in_turn_cases fl env Holds budget false hedge h primary primary_takes
              (λ f. (refl, refl)) (λ f k. (refl, refl)) (λ f k. (refl, refl)))
      ]

  -- A hedged call returns the error of its context, which has then ended before the call or in it, not
  -- after a success and not after all results that are awaited, or the answer of the primary attempt, but its
  -- error not when a hedge succeeded, or the answer of a hedge, but its error not when the primary attempt
  -- succeeded. The hook of a hedge that wins fires for the success of a hedge. In the end no permit is held.
  pub do_hedge-Answered :
      (budget : Option (ConcurrencyBudget fl)) (delay : ℕ)
      → let run = do_hedge fl env budget delay in Answered delay run × (settled fl env run ≡ budget)
  unfolding settled hedged wait_for_primary
  do_hedge-Answered budget delay =
      do_hedge_cases fl env (λ run. Answered delay run × (settled fl env run ≡ budget)) budget delay
        (λ e h. (by_context e refl (at_once e h refl) refl, refl))
        (λ live. (wait_for_primary-Answered budget false delay live, refl))
        (λ live h. (
          wait_for_primary-Answered (try_acquire fl budget).0 true delay live,
          try_acquire-denied budget h,
        ))
        (λ live h.
          let (triggered, held) = wait_for_results_holds (try_acquire fl budget).0 delay in
          (
            wait_for_results-Answered (try_acquire fl budget).0 delay live,
            rw triggered (ap (release fl) held ∙ release-try_acquire budget h),
          ))
