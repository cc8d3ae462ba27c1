-- ===== src/RateLimiter/Aimd/Range.antt =====
-- ratelimit.go: where the AIMD controller can move the rate, and how often.
use r8e.Prelude.{◌≡◌, Bool, true, false, arith}
use r8e.Prelude.Float.{Float, FloatLaws}
use r8e.RateLimiter.Aimd.{AimdState, step}

module _ (fl : Float) (laws : FloatLaws fl) where
  open fl use {Carrier, le, of_int, add, mul}
  open laws use {order, le_add, add_comm, mul_le}
  open order use {le_refl, le_trans, le_total}

  -- Tunables as `resolve` leaves them for a base rate that is not negative, and a rate in their range.
  pub record InRange (ctrl : AimdState fl) (rate : Carrier) : Type 0 where
    pub min_nonneg : le (of_int 0) ctrl.min_rate ≡ true
    pub min_le : le ctrl.min_rate rate ≡ true
    pub le_max : le rate ctrl.max_rate ≡ true
    pub increase_nonneg : le (of_int 0) ctrl.increase ≡ true
    pub backoff_nonneg : le (of_int 0) ctrl.backoff ≡ true
    pub backoff_le_one : le ctrl.backoff (of_int 1) ≡ true

  pub step-range :
      (ctrl : AimdState fl) (overload : Bool) (cur : Carrier)
      → InRange ctrl cur
      → (le ctrl.min_rate (step fl ctrl overload cur) ≡ true)
        × (le (step fl ctrl overload cur) ctrl.max_rate ≡ true)
  unfolding step
  step-range ctrl true cur v = ground (
    arith,
    le_trans (of_int 0) ctrl.min_rate cur v.min_nonneg v.min_le,
    mul_le cur ctrl.backoff,
    v.backoff_nonneg,
    v.backoff_le_one,
    le_trans (mul cur ctrl.backoff) cur ctrl.max_rate,
    v.le_max,
    le_trans ctrl.min_rate cur ctrl.max_rate v.min_le v.le_max,
    le_total ctrl.min_rate (mul cur ctrl.backoff),
    le_refl ctrl.min_rate,
  )
  step-range ctrl false cur v =
      let grown = add cur ctrl.increase in
      let more : le cur grown ≡ true =
        rw (add_comm cur ctrl.increase) (le_add ctrl.increase cur v.increase_nonneg) in
      ground (
        arith,
        le_trans ctrl.min_rate cur grown v.min_le more,
        le_trans ctrl.min_rate cur ctrl.max_rate v.min_le v.le_max,
        le_total ctrl.max_rate grown,
        le_refl ctrl.max_rate,
      )
