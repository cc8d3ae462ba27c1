-- ===== src/Reconfigure/Outcome.antt =====
-- reconfigure.go: what Reconfigure does in each case.
use r8e.Prelude.{
  ℕ, ◌≡◌, refl, ap, subst, ◌⊎◌, inl, inr, true, false, not, ◌&&◌, Option, none, some, List, arith,
}
use r8e.Prelude.Float.{Float}
use Prim.Native.String.{String}
use r8e.Config.{PolicyConfig}
use r8e.Reconfigure.{Policy, Action}
use r8e.Reconfigure.Actions.{
  ReconfigureError, Prepared, ready, failed, ◌>>=◌, timeout_reconfigure_actions,
  time_budget_reconfigure_actions, hedge_reconfigure_actions, rate_limit_action,
  aimd_reconfigure_action, bulkhead_action,
}
use r8e.Reconfigure.Actions.Guarded.{
  adaptive_action, throttle_action, slo_with_target, slo_reconfigure_action, circuit_breaker_action,
  retry_action, retry_budget_reconfigure_action, concurrency_budget_reconfigure_action,
  prepared_actions, reconfigure,
}
use r8e.Reconfigure.Frame.{
  Component, timeout, adaptive_timeout, time_budget, hedge, adaptive_hedge, rate_limiter, bulkhead,
  adaptive, throttler, slo, circuit_breaker, retry, retry_budget, concurrency_budget, view, has,
  asks, Frames, Frames-++, timeout_reconfigure_actions-Frames,
  time_budget_reconfigure_actions-Frames, hedge_reconfigure_actions-Frames,
  rate_limit_action-Frames, aimd_reconfigure_action-Frames, bulkhead_action-Frames,
  adaptive_action-Frames, throttle_action-Frames, slo_reconfigure_action-Frames,
  circuit_breaker_action-Frames, retry_action-Frames, retry_budget_reconfigure_action-Frames,
  concurrency_budget_reconfigure_action-Frames,
}

bind-ready :
    {A B : Type 0} (m : Prepared A) (f : A → Prepared B) (b : B)
    → m >>= f ≡ ready b
    → (a : A) × (m ≡ ready a) × (f a ≡ ready b)
bind-ready (ready a) f b e = (a, refl, e)
bind-ready (failed x) f b e = ground (arith, e)

abbrev ready_or {ℓ} : {A : Type ℓ} → A → Prepared A → A
ready_or d (ready a) = a
ready_or d (failed e) = d

module _ (fl : Float) (parse_duration : String → Option ℕ) (p : Policy fl)
    (cfg : PolicyConfig fl) where
  Granted : Component → Type 0
  Granted x = asks fl cfg x && not (has fl p x) ≡ false

  timeout_reconfigure_actions-Granted :
      (acts : List (Action fl))
      → timeout_reconfigure_actions fl parse_duration p cfg ≡ ready acts
      → Granted timeout × Granted adaptive_timeout
  unfolding timeout_reconfigure_actions Granted asks has
  timeout_reconfigure_actions-Granted acts e = ground (arith, e)

  time_budget_reconfigure_actions-Granted :
      (acts : List (Action fl))
      → time_budget_reconfigure_actions fl parse_duration p cfg ≡ ready acts
      → Granted time_budget
  unfolding time_budget_reconfigure_actions Granted asks has
  time_budget_reconfigure_actions-Granted acts e = ground (arith, e)

  hedge_reconfigure_actions-Granted :
      (acts : List (Action fl))
      → hedge_reconfigure_actions fl parse_duration p cfg ≡ ready acts
      → Granted hedge × Granted adaptive_hedge
  unfolding hedge_reconfigure_actions Granted asks has
  hedge_reconfigure_actions-Granted acts e = ground (arith, e)

  rate_limit-Granted :
      (xs ys : List (Action fl))
      → rate_limit_action fl parse_duration p cfg ≡ ready xs
      → aimd_reconfigure_action fl parse_duration p cfg ≡ ready ys
      → Granted rate_limiter
  unfolding rate_limit_action aimd_reconfigure_action Granted asks has
  rate_limit-Granted xs ys e d = ground (arith, e, d)

  bulkhead_action-Granted :
      (acts : List (Action fl))
      → bulkhead_action fl parse_duration p cfg ≡ ready acts
      → Granted bulkhead
  unfolding bulkhead_action Granted asks has
  bulkhead_action-Granted acts e = ground (arith, e)

  adaptive_action-Granted :
      (acts : List (Action fl))
      → adaptive_action fl parse_duration p cfg ≡ ready acts
      → Granted adaptive
  unfolding adaptive_action Granted asks has
  adaptive_action-Granted acts e = ground (arith, e)

  throttle_action-Granted :
      (acts : List (Action fl))
      → throttle_action fl parse_duration p cfg ≡ ready acts
      → Granted throttler
  unfolding throttle_action Granted asks has
  throttle_action-Granted acts e = ground (arith, e)

  slo_reconfigure_action-Granted :
      (acts : List (Action fl))
      → slo_reconfigure_action fl parse_duration p cfg ≡ ready acts
      → Granted slo
  unfolding slo_reconfigure_action slo_with_target Granted asks has
  slo_reconfigure_action-Granted acts e = ground (arith, e)

  circuit_breaker_action-Granted :
      (acts : List (Action fl))
      → circuit_breaker_action fl parse_duration p cfg ≡ ready acts
      → Granted circuit_breaker
  unfolding circuit_breaker_action Granted asks has
  circuit_breaker_action-Granted acts e = ground (arith, e)

  retry_action-Granted :
      (acts : List (Action fl)) → retry_action fl parse_duration p cfg ≡ ready acts → Granted retry
  unfolding retry_action Granted asks has
  retry_action-Granted acts e = ground (arith, e)

  retry_budget_reconfigure_action-Granted :
      (acts : List (Action fl))
      → retry_budget_reconfigure_action fl parse_duration p cfg ≡ ready acts
      → Granted retry_budget
  unfolding retry_budget_reconfigure_action Granted asks has
  retry_budget_reconfigure_action-Granted acts e = ground (arith, e)

  concurrency_budget_reconfigure_action-Granted :
      (acts : List (Action fl))
      → concurrency_budget_reconfigure_action fl parse_duration p cfg ≡ ready acts
      → Granted concurrency_budget
  unfolding concurrency_budget_reconfigure_action Granted asks has
  concurrency_budget_reconfigure_action-Granted acts e = ground (arith, e)

  -- Actions that were prepared change only what is asked for, all of which the policy has.
  prepared-Frames :
      (acts : List (Action fl))
      → prepared_actions fl parse_duration p cfg ≡ ready acts
      → Frames fl acts (asks fl cfg) × ((x : Component) → Granted x)
  unfolding prepared_actions
  prepared-Frames acts e =
      let (a0, of0, e0) = bind-ready _ _ acts e in
      let (a1, of1, e1) = bind-ready _ _ acts e0 in
      let (a2, of2, e2) = bind-ready _ _ acts e1 in
      let (a3, of3, e3) = bind-ready _ _ acts e2 in
      let (a4, of4, e4) = bind-ready _ _ acts e3 in
      let (a5, of5, e5) = bind-ready _ _ acts e4 in
      let (a6, of6, e6) = bind-ready _ _ acts e5 in
      let (a7, of7, e7) = bind-ready _ _ acts e6 in
      let (a8, of8, e8) = bind-ready _ _ acts e7 in
      let (a9, of9, e9) = bind-ready _ _ acts e8 in
      let (a10, of10, e10) = bind-ready _ _ acts e9 in
      let (a11, of11, e11) = bind-ready _ _ acts e10 in
      let (a12, of12, e12) = bind-ready _ _ acts e11 in
      let f0 = timeout_reconfigure_actions-Frames fl parse_duration p cfg a0 of0 in
      let f1 =
        Frames-++ fl parse_duration p cfg _ _ _ f0
          (time_budget_reconfigure_actions-Frames fl parse_duration p cfg a1 of1) in
      let f2 =
        Frames-++ fl parse_duration p cfg _ _ _ f1
          (hedge_reconfigure_actions-Frames fl parse_duration p cfg a2 of2) in
      let f3 =
        Frames-++ fl parse_duration p cfg _ _ _ f2
          (rate_limit_action-Frames fl parse_duration p cfg a3 of3) in
      let f4 =
        Frames-++ fl parse_duration p cfg _ _ _ f3
          (aimd_reconfigure_action-Frames fl parse_duration p cfg a4 of4) in
      let f5 =
        Frames-++ fl parse_duration p cfg _ _ _ f4
          (bulkhead_action-Frames fl parse_duration p cfg a5 of5) in
      let f6 =
        Frames-++ fl parse_duration p cfg _ _ _ f5
          (adaptive_action-Frames fl parse_duration p cfg a6 of6) in
      let f7 =
        Frames-++ fl parse_duration p cfg _ _ _ f6
          (throttle_action-Frames fl parse_duration p cfg a7 of7) in
      let f8 =
        Frames-++ fl parse_duration p cfg _ _ _ f7
          (slo_reconfigure_action-Frames fl parse_duration p cfg a8 of8) in
      let f9 =
        Frames-++ fl parse_duration p cfg _ _ _ f8
          (circuit_breaker_action-Frames fl parse_duration p cfg a9 of9) in
      let f10 =
        Frames-++ fl parse_duration p cfg _ _ _ f9
          (retry_action-Frames fl parse_duration p cfg a10 of10) in
      let f11 =
        Frames-++ fl parse_duration p cfg _ _ _ f10
          (retry_budget_reconfigure_action-Frames fl parse_duration p cfg a11 of11) in
      let f12 =
        Frames-++ fl parse_duration p cfg _ _ _ f11
          (concurrency_budget_reconfigure_action-Frames fl parse_duration p cfg a12 of12) in
      (
        subst (λ (l : List (Action fl)). Frames fl l (asks fl cfg)) (ap (ready_or acts) e12) f12,
        λ x. elim x as (λ x. Granted x) [
          | timeout ↦ (timeout_reconfigure_actions-Granted a0 of0).0
          | adaptive_timeout ↦ (timeout_reconfigure_actions-Granted a0 of0).1
          | time_budget ↦ time_budget_reconfigure_actions-Granted a1 of1
          | hedge ↦ (hedge_reconfigure_actions-Granted a2 of2).0
          | adaptive_hedge ↦ (hedge_reconfigure_actions-Granted a2 of2).1
          | rate_limiter ↦ rate_limit-Granted a3 a4 of3 of4
          | bulkhead ↦ bulkhead_action-Granted a5 of5
          | adaptive ↦ adaptive_action-Granted a6 of6
          | throttler ↦ throttle_action-Granted a7 of7
          | slo ↦ slo_reconfigure_action-Granted a8 of8
          | circuit_breaker ↦ circuit_breaker_action-Granted a9 of9
          | retry ↦ retry_action-Granted a10 of10
          | retry_budget ↦ retry_budget_reconfigure_action-Granted a11 of11
          | concurrency_budget ↦ concurrency_budget_reconfigure_action-Granted a12 of12
        ],
      )

  prepared :
      (r : Prepared (List (Action fl)))
      → ((e : ReconfigureError) × (r ≡ failed e)) ⊎ ((acts : List (Action fl)) × (r ≡ ready acts))
  prepared (failed e) = inl (e, refl)
  prepared (ready acts) = inr (acts, refl)

  -- Reconfigure either returns an error and changes nothing, or it succeeds: then the policy has each
  -- component that the configuration asks to change, has the components it had, and no other one is
  -- changed.
  pub reconfigure_cases :
      (x : Component)
      → let r = reconfigure fl parse_duration p cfg in
        ((e : ReconfigureError) × (r ≡ (p, some e)))
        ⊎ ((r.1 ≡ none)
            × (asks fl cfg x && not (has fl p x) ≡ false)
            × (has fl r.0 x ≡ has fl p x)
            × ((asks fl cfg x ≡ true) ⊎ (view fl x r.0 ≡ view fl x p)))
  unfolding reconfigure Frames Granted
  reconfigure_cases x = elim (prepared (prepared_actions fl parse_duration p cfg)) [
    | inl (e, bad) ↦ inl (e, rw (reconfigure, bad) refl)
    | inr (acts, good) ↦
        let (frame, granted) = prepared-Frames acts good in
        let (same, kept) = frame p x in rw (reconfigure, good) (inr (refl, granted x, same, kept))
  ]
