-- ===== src/Hedge/Race.antt =====
-- hedge.go: when a hedged call is over.
use r8e.Prelude.{
  ℕ, ◌+◌, ◌≤◌, ◌^◌, ◌≡◌, refl, sym, subst, Bool, true, false, not, ◌&&◌, ◌||◌, Option, none, some,
  max, arith, ◌⊎◌, inl, inr, Bool-cases, Option-cases,
}
use r8e.Prelude.Float.{Float, FloatLaws, FloatExact}
use r8e.Errors.{Error}
use r8e.Retry.{Result, err}
use r8e.ConcurrencyBudget.{ConcurrencyBudget, try_acquire}
use r8e.Estimator.{Estimator, compute}
use r8e.Estimator.Clamp.{compute-bounds}
use r8e.Timeout.{before, before_any}
use r8e.Timeout.Ceiling.{before_cases, before_any_cases, Outlives}
use r8e.Hedge.{
  Surroundings, Run, is_spent, answer, ended_at, is_ok, hedged, in_turn, wait_for_primary,
  wait_for_results, after_delay, do_hedge, adaptive_hedge_call,
}

module _ {ℓ} {T : Type ℓ} (fl : Float) (env : Surroundings T) where
  open env use {
    primary, hedge, primary_takes, hedge_takes, cancelled_at, over_timer, over_hedge, over_end,
  }

  -- When a call is over whose hedge starts after the delay: with a success of the primary attempt, with one
  -- of a hedge, with the later of two failures and with the context, or before.
  abbrev pub Timely : ℕ → Run fl env → Type 0
  Timely delay run =
      ((is_ok primary ≡ false) ⊎ (run.finished_at ≤ primary_takes))
      × ((run.on_hedge_triggered ≡ false)
          ⊎ (is_ok hedge ≡ false)
          ⊎ (run.finished_at ≤ delay + hedge_takes))
      × (run.finished_at ≤ max primary_takes (delay + hedge_takes))
      × Outlives cancelled_at run.finished_at

  answer-finished :
      (t : ℕ) (r : Result T)
      → ((answer fl env t r).1 ≤ t) × Outlives cancelled_at (answer fl env t r).1
  unfolding answer ended_at
  answer-finished t r = elim (before_any_cases over_end t cancelled_at) [
    | inl (u, out) ↦ rw u (omega arith, out)
    | inr (c, e, u, le) ↦ rw (u, e) (le, omega arith)
  ]

  wait_for_primary-Timely :
      (budget : Option (ConcurrencyBudget fl)) (exceeded : Bool) (delay : ℕ)
      → Timely delay (wait_for_primary fl env budget exceeded)
  unfolding wait_for_primary
  wait_for_primary-Timely budget exceeded delay =
      let (le, out) = answer-finished primary_takes primary in
      (inr le, inl refl, omega (arith, le), out)

  -- A time by which a hedged call may be over, as `Timely` has it.
  abbrev Due : ℕ → ℕ → Type 0
  Due delay t =
      ((is_ok primary ≡ false) ⊎ (t ≤ primary_takes))
      × ((is_ok hedge ≡ false) ⊎ (t ≤ delay + hedge_takes))
      × (t ≤ max primary_takes (delay + hedge_takes))

  hedged-Timely :
      (budget : Option (ConcurrencyBudget fl)) (won : Bool) (delay t : ℕ) (r : Result T)
      → Due delay t
      → Timely delay (hedged fl env budget won (answer fl env t r))
  unfolding hedged
  hedged-Timely budget won delay t r (p, h, m) =
      let (le, out) = answer-finished t r in
      (
        elim p [ inl f ↦ inl f | inr k ↦ inr (omega (arith, le, k)) ],
        inr (elim h [ inl f ↦ inl f | inr k ↦ inr (omega (arith, le, k)) ]),
        omega (arith, le, m),
        out,
      )

  -- A property of the three ways in which two results can be taken.
  pub in_turn_cases {ℓ'} :
      (P : Run fl env → Type ℓ') (budget : Option (ConcurrencyBudget fl)) (primary_first : Bool)
      (first : Result T) (first_at : ℕ) (second : Result T) (second_at : ℕ)
      → let first_seen = before_any over_end first_at cancelled_at in
        let second_seen = before_any over_end second_at cancelled_at in
        ((not first_seen || is_ok first) ≡ true
          → P (
              hedged fl env budget
                (first_seen && not primary_first)
                (answer fl env first_at first)))
        → ((not first_seen || is_ok first) ≡ false
            → is_ok second ≡ true
            → P (
                hedged fl env budget
                  (second_seen && primary_first)
                  (answer fl env second_at second)))
        → ((not first_seen || is_ok first) ≡ false
            → is_ok second ≡ false
            → P (hedged fl env budget false (answer fl env second_at first)))
        → P (in_turn fl env budget primary_first first first_at second second_at)
  unfolding in_turn
  in_turn_cases P budget primary_first first first_at second second_at one two neither =
      elim (Bool-cases (not (before_any over_end first_at cancelled_at) || is_ok first)) [
        | inl t ↦ subst P (sym (rw t refl)) (one t)
        | inr f ↦ elim (Bool-cases (is_ok second)) [
          | inl u ↦ subst P (sym (rw (f, u) refl)) (two f u)
          | inr v ↦ subst P (sym (rw (f, v) refl)) (neither f v)
        ]
      ]

  pub failed : (seen : Bool) (r : Result T) → (not seen || is_ok r) ≡ false → is_ok r ≡ false
  failed seen r h = ground (arith, h)

  wait_for_results-Timely :
      (budget : Option (ConcurrencyBudget fl)) (delay : ℕ)
      → Timely delay (wait_for_results fl env budget delay)
  unfolding wait_for_results
  wait_for_results-Timely budget delay =
      let h = delay + hedge_takes in
      elim (before_cases over_hedge primary_takes h) [
        | inl (t, le) ↦
            let late : (is_ok primary ≡ false) → Due delay h =
              λ f. (inl f, inr (omega arith), omega arith) in
            rw t (
              in_turn_cases (Timely delay) budget true primary primary_takes hedge h
                (λ _.
                  hedged-Timely budget (before_any over_end primary_takes cancelled_at && not true)
                    delay primary_takes primary (inr (omega arith), inr le, omega arith))
                (λ f _.
                  hedged-Timely budget (before_any over_end h cancelled_at && true) delay h hedge
                    (late (failed _ primary f)))
                (λ f _. hedged-Timely budget false delay h primary (late (failed _ primary f))))
        | inr (t, le) ↦
            let late : (is_ok hedge ≡ false) → Due delay primary_takes =
              λ f. (inr (omega arith), inl f, omega arith) in
            rw t (
              in_turn_cases (Timely delay) budget false hedge h primary primary_takes
                (λ _.
                  hedged-Timely budget (before_any over_end h cancelled_at && not false) delay h
                    hedge (inr le, inr (omega arith), omega arith))
                (λ f _.
                  hedged-Timely budget (before_any over_end primary_takes cancelled_at && false)
                    delay primary_takes primary (late (failed _ hedge f)))
                (λ f _.
                  hedged-Timely budget false delay primary_takes hedge (late (failed _ hedge f))))
      ]

  -- The call of a context that has ended.
  abbrev pub stopped : Option (ConcurrencyBudget fl) → Error → Run fl env
  stopped budget e = record {
    result = err e;
    finished_at = 0;
    budget = budget;
    on_hedge_triggered = false;
    on_hedge_won = false;
    on_concurrency_budget_exceeded = false;
  }

  -- A property of the ways in which a call goes on.
  pub do_hedge_cases {ℓ'} :
      (P : Run fl env → Type ℓ') (budget : Option (ConcurrencyBudget fl)) (delay : ℕ)
      → ((e : Error) → env.ended ≡ some e → P (stopped budget e))
      → (env.ended ≡ none → P (wait_for_primary fl env budget false))
      → (env.ended ≡ none
          → (try_acquire fl budget).1 ≡ false
          → P (wait_for_primary fl env (try_acquire fl budget).0 true))
      → (env.ended ≡ none
          → (try_acquire fl budget).1 ≡ true
          → P (wait_for_results fl env (try_acquire fl budget).0 delay))
      → P (do_hedge fl env budget delay)
  unfolding do_hedge after_delay
  do_hedge_cases P budget delay ended alone denied raced =
      let first =
        before over_timer primary_takes delay || not (before_any over_end delay cancelled_at) in
      elim (Option-cases env.ended) [
        | inr (e, h) ↦ subst P (sym (rw h refl)) (ended e h)
        | inl h ↦ elim (Bool-cases first) [
          | inl t ↦ subst P (sym (rw (h, t) refl)) (alone h)
          | inr f ↦ elim (Bool-cases (is_spent env.budget_ends delay)) [
            | inl s ↦ subst P (sym (rw (h, f, s) refl)) (alone h)
            | inr s ↦ elim (Bool-cases (try_acquire fl budget).1) [
              | inl u ↦ subst P (sym (rw (h, f, s, u) refl)) (raced h u)
              | inr v ↦ subst P (sym (rw (h, f, s, v) refl)) (denied h v)
            ]
          ]
        ]
      ]

  Outlives-zero : (c : Option ℕ) → Outlives c 0
  Outlives-zero none = tt
  Outlives-zero (some c) = omega arith

  -- A call whose hedge starts after the delay is over with the first success, or with the later of two
  -- failures, and in any case when its context ends, or it is over before that.
  pub do_hedge-Timely :
      (budget : Option (ConcurrencyBudget fl)) (delay : ℕ)
      → Timely delay (do_hedge fl env budget delay)
  do_hedge-Timely budget delay =
      do_hedge_cases (Timely delay) budget delay
        (λ e h. (inr (omega arith), inl refl, omega arith, Outlives-zero cancelled_at))
        (λ _. wait_for_primary-Timely budget false delay)
        (λ _ h. wait_for_primary-Timely (try_acquire fl budget).0 true delay)
        (λ _ h. wait_for_results-Timely (try_acquire fl budget).0 delay)

module _ {ℓ} {T : Type ℓ} (fl : Float) (laws : FloatLaws fl) (exact : FloatExact fl)
    (env : Surroundings T) where
  open env use {primary, hedge, primary_takes, hedge_takes, cancelled_at}

  -- A call with an adaptive hedge, with durations of at most 2 ^ 53 ns, is over with the first success, of
  -- the primary attempt or of a hedge that starts at the ceiling, or with the later of two failures, and in
  -- any case when its context ends, or it is over before that.
  pub adaptive_hedge_call-finished :
      (budget : Option (ConcurrencyBudget fl)) (e : Estimator fl) (start ceiling : ℕ)
      → ceiling ≤ 2 ^ 53
      → e.cfg.floor ≤ 2 ^ 53
      → let run = (adaptive_hedge_call fl env budget e start ceiling).0 in
        ((is_ok primary ≡ false) ⊎ (run.finished_at ≤ primary_takes))
        × ((run.on_hedge_triggered ≡ false)
            ⊎ (is_ok hedge ≡ false)
            ⊎ (run.finished_at ≤ ceiling + hedge_takes))
        × (run.finished_at ≤ max primary_takes (ceiling + hedge_takes))
        × Outlives cancelled_at run.finished_at
  unfolding adaptive_hedge_call
  adaptive_hedge_call-finished budget e start ceiling b c =
      let delay = (compute fl e start ceiling).0 in
      let (within, over) = compute-bounds fl laws exact e start ceiling b c in
      let (p, h, m, out) = do_hedge-Timely fl env budget delay in
      (
        p,
        elim h [
          | inl f ↦ inl f
          | inr (inl f) ↦ inr (inl f)
          | inr (inr k) ↦ inr (inr (omega (arith, k, within)))
        ],
        omega (arith, m, within),
        out,
      )
