-- ===== src/Throttle/Bounds.antt =====
-- throttle.go: the range of the probability to reject.
use r8e.Prelude.{ℕ, ◌≤◌, ◌≡◌, true, false, arith, ◌⊎◌}
use r8e.Prelude.Float.{Float, FloatLaws, lt}
use r8e.Throttle.{Throttler, ThrottleConfig, clamp, apply_config, probability}

module _ (fl : Float) (laws : FloatLaws fl) where
  open fl use {Carrier, le, of_int, add, sub, mul, div}
  open laws use {order, of_int_mono, of_int_pos, div_nonneg, le_add}
  open order use {le_trans, le_total}

  clamp-rate :
      (c : ThrottleConfig fl)
      → (le (of_int 0) (clamp fl c).max_rejection_rate ≡ true)
        × (lt fl (of_int 1) (clamp fl c).max_rejection_rate ≡ false)
  unfolding clamp
  clamp-rate c = ground (
    arith,
    le_total (of_int 0) c.max_rejection_rate,
    of_int_mono 0 9,
    of_int_mono 9 10,
    of_int_pos 10,
    div_nonneg (of_int 9) (of_int 10),
    laws.div_le_one (of_int 9) (of_int 10),
  )

  divisor : (n : ℕ) → lt fl (of_int 0) (add (of_int n) (of_int 1)) ≡ true
  divisor n = ground (
    arith,
    of_int_mono 0 n,
    of_int_pos 1,
    le_add (of_int n) (of_int 1),
    le_trans (of_int 1) (add (of_int n) (of_int 1)) (of_int 0),
  )

  bounded :
      (t : Throttler fl) (requests accepts : ℕ)
      → le (of_int 0) t.max_rejection_rate ≡ true
      → (le (of_int 0) (probability fl t requests accepts) ≡ true)
        × (le (probability fl t requests accepts) t.max_rejection_rate ≡ true)
        × ((probability fl t requests accepts ≡ of_int 0) ⊎ (t.min_requests ≤ requests))
  unfolding probability
  bounded t requests accepts h =
      let gap = sub (of_int requests) (mul t.overload_ratio (of_int accepts)) in
      let share = div gap (add (of_int requests) (of_int 1)) in
      ground (
        arith,
        h,
        of_int_mono 0 0,
        le_total (of_int 0) gap,
        divisor requests,
        div_nonneg gap (add (of_int requests) (of_int 1)),
        le_total share t.max_rejection_rate,
        order.le_refl t.max_rejection_rate,
      )

  -- With any configuration that Reconfigure or NewThrottler applies, the probability to reject is
  -- at least 0 and at most MaxRejectionRate, this is at most 1, and the probability is 0 below MinRequests.
  pub probability-bounds :
      (t : Throttler fl) (c : ThrottleConfig fl) (requests accepts : ℕ)
      → let t' = apply_config fl t (clamp fl c) in
        let p = probability fl t' requests accepts in
        (le (of_int 0) p ≡ true)
        × (le p t'.max_rejection_rate ≡ true)
        × (le t'.max_rejection_rate (of_int 1) ≡ true)
        × ((p ≡ of_int 0) ⊎ (t'.min_requests ≤ requests))
  unfolding apply_config
  probability-bounds t c requests accepts =
      let rate = clamp-rate c in
      let (low, high, early) = bounded (apply_config fl t (clamp fl c)) requests accepts rate.0 in
      (low, high, ground (arith, rate.1), early)
