-- ===== src/RateLimiter/Adaptation.antt =====
-- ratelimit.go: the rate over any outcomes that RecordOutcome sees.
use r8e.Prelude.{
  ℕ, ◌+◌, ◌-◌, ◌*◌, ◌≤◌, ◌<◌, ◌≡◌, refl, subst, Bool, true, false, Option, some, List, [], ◌∷◌,
  arith, ◌⊎◌, inl, inr, length,
}
use r8e.Prelude.Float.{Float, FloatLaws}
use r8e.Errors.{Error}
use r8e.RateLimiter.Aimd.{AimdState, step, adjust}
use r8e.RateLimiter.Aimd.Range.{InRange, step-range}
use r8e.RateLimiter.{RateLimiter, record_outcome, store_rate, clamp_tokens}

module _ (fl : Float) where
  -- The limiter after the outcomes, the first one first, and the number of its adaptations.
  pub record_all : RateLimiter fl → List (ℕ × Option Error) → RateLimiter fl × ℕ
  record_all rl [] = (rl, 0)
  record_all rl ((now, e) ∷ cs) =
      let (rl', hooks) = record_outcome fl rl now e in
      let (last, adapted) = record_all rl' cs in (last, length hooks + adapted)

  module _ (laws : FloatLaws fl) where
    -- A limiter with a controller that has its interval, whose rate is in range.
    pub record Adapts (rl : RateLimiter fl) (interval : ℕ) (adjusted : ℕ) : Type 0 where
      pub ctrl : AimdState fl
      pub controlled : rl.aimd ≡ some ctrl
      pub in_range : InRange fl laws ctrl rl.rate
      pub positive : 0 < ctrl.interval
      pub same_interval : ctrl.interval ≡ interval
      pub last : adjusted ≤ ctrl.last_adjust

    adjust_cases :
        (ctrl : AimdState fl) (now : ℕ) (cur : fl.Carrier) (overload : Bool)
        → (adjust fl ctrl now cur overload ≡ (ctrl, cur, false))
          ⊎ ((ctrl.interval ≤ now - ctrl.last_adjust)
              × (adjust fl ctrl now cur overload
                  ≡ (record ctrl { last_adjust = now }, step fl ctrl overload cur, true)))
    unfolding adjust
    adjust_cases ctrl now cur overload = ground arith

    store_rate_fields :
        (rl : RateLimiter fl) (r : fl.Carrier)
        → ((store_rate fl rl r).aimd ≡ rl.aimd) × ((store_rate fl rl r).rate ≡ r)
    unfolding store_rate clamp_tokens
    store_rate_fields rl r = ground arith

    moved_to : RateLimiter fl → AimdState fl → ℕ → Bool → RateLimiter fl
    moved_to rl ctrl now overload =
        store_rate fl (record rl { aimd = some (record ctrl { last_adjust = now }) })
          (step fl ctrl overload rl.rate)

    Adapts-moved :
        (rl : RateLimiter fl) (interval adjusted now : ℕ) (overload : Bool)
        (v : Adapts rl interval adjusted)
        → v.ctrl.interval ≤ now - v.ctrl.last_adjust
        → Adapts (moved_to rl v.ctrl now overload) interval (1 * interval + adjusted)
    unfolding moved_to
    Adapts-moved rl interval adjusted now overload v late =
        let ctrl = v.ctrl in
        let next = step fl ctrl overload rl.rate in
        let (same, rated) =
          store_rate_fields (record rl { aimd = some (record ctrl { last_adjust = now }) }) next in
        let (low, high) = step-range fl laws ctrl overload rl.rate v.in_range in
        record {
          ctrl = record ctrl { last_adjust = now };
          controlled = same;
          in_range = record {
            min_nonneg = v.in_range.min_nonneg;
            min_le = rw rated low;
            le_max = rw rated high;
            increase_nonneg = v.in_range.increase_nonneg;
            backoff_nonneg = v.in_range.backoff_nonneg;
            backoff_le_one = v.in_range.backoff_le_one;
          };
          positive = v.positive;
          same_interval = v.same_interval;
          last = omega (arith, late, v.last, v.same_interval, v.positive);
        }

    -- One outcome: nothing changes, or there is one adaptation, an interval after the last.
    Adapts-step :
        (rl : RateLimiter fl) (interval adjusted now : ℕ) (e : Option Error)
        → Adapts rl interval adjusted
        → (n : ℕ) × (length (record_outcome fl rl now e).1 ≡ n)
          × Adapts (record_outcome fl rl now e).0 interval (n * interval + adjusted)
    unfolding record_outcome moved_to
    Adapts-step rl interval adjusted now e v =
        let ctrl = v.ctrl in
        elim (adjust_cases ctrl now rl.rate (ctrl.classifier e)) [
          | inl same ↦
              rw (record_outcome, v.controlled, same)
                (
                  0,
                  refl,
                  record {
                    ctrl = ctrl;
                    controlled = v.controlled;
                    in_range = v.in_range;
                    positive = v.positive;
                    same_interval = v.same_interval;
                    last = omega (arith, v.last);
                  },
                )
          | inr (late, moved) ↦
              rw (record_outcome, v.controlled, moved)
                (1, refl, Adapts-moved rl interval adjusted now (ctrl.classifier e) v late)
        ]

    -- On a limiter with AIMD whose rate is in the range of its minimum and maximum, the rate stays in
    -- this range whatever outcomes are recorded, and the adaptations are an interval apart: `n` of them
    -- take `n` intervals since the adjustment before.
    pub record_all-Adapts :
        (rl : RateLimiter fl) (interval adjusted : ℕ) (cs : List (ℕ × Option Error))
        → Adapts rl interval adjusted
        → Adapts (record_all rl cs).0 interval ((record_all rl cs).1 * interval + adjusted)
    unfolding record_all
    record_all-Adapts rl interval adjusted [] v = record {
      ctrl = v.ctrl;
      controlled = v.controlled;
      in_range = v.in_range;
      positive = v.positive;
      same_interval = v.same_interval;
      last = omega (arith, v.last);
    }
    record_all-Adapts rl interval adjusted ((now, e) ∷ cs) v =
        let (n, counted, next) = Adapts-step rl interval adjusted now e v in
        let rl' = (record_outcome fl rl now e).0 in
        let sum : (record_all rl' cs).1 * interval + (n * interval + adjusted)
            ≡ (length (record_outcome fl rl now e).1 + (record_all rl' cs).1) * interval
              + adjusted =
          rw counted (grind arith) in
        subst (Adapts (record_all rl' cs).0 interval) sum
          (record_all-Adapts rl' interval (n * interval + adjusted) cs next)
