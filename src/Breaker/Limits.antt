-- ===== src/Breaker/Limits.antt =====
-- circuitbreaker.go: the recovery wait and the slow-start curve stay within their limits.
use r8e.Prelude.{ℕ, ◌≤◌, ◌<◌, ◌≡◌, true, false, ◌⊎◌, arith, if◌then◌else◌}
use r8e.Prelude.Float.{Float, FloatLaws}
use r8e.Breaker.Options.{Config}
use r8e.Breaker.State.{
  safe_max, CircuitBreaker, current_recovery_timeout, scaled_timeout, ramp_fraction, positive,
}

module _ (fl : Float) (laws : FloatLaws fl) where
  open fl use {Carrier, le, of_int, to_int, mul, div, pow}
  open laws use {order, of_int_mono, of_int_pos, to_int_mono, div_nonneg, div_le_one, pow_le_one}
  open order use {le_refl, le_trans, le_total}

  scaled_timeout-le :
      (cfg : Config fl) (attempt : ℕ)
      → to_int (of_int safe_max) ≡ safe_max
      → scaled_timeout fl cfg attempt ≤ safe_max
  unfolding scaled_timeout
  scaled_timeout-le cfg attempt exact =
      let ns =
        mul (of_int cfg.recovery_timeout) (pow cfg.recovery_backoff_multiplier (of_int attempt)) in
      ground (arith, to_int_mono ns (of_int safe_max))

  -- After a failed probe the wait with a multiplier is no more than the configured cap, if there is
  -- one, nor than the bound below which a float64 number of nanoseconds is an int64.
  pub current_recovery_timeout-le :
      to_int (of_int safe_max) ≡ safe_max
      → (cb : CircuitBreaker fl) → le cb.cfg.recovery_backoff_multiplier (of_int 0) ≡ false
      → 0 < cb.recovery_attempt
      → (current_recovery_timeout fl cb ≤ safe_max)
        × ((cb.cfg.recovery_max_backoff ≡ 0)
            ⊎ (current_recovery_timeout fl cb ≤ cb.cfg.recovery_max_backoff))
  unfolding current_recovery_timeout
  current_recovery_timeout-le exact cb on failed =
      ground (arith, scaled_timeout-le cb.cfg cb.recovery_attempt exact)

  exponent : Carrier → Carrier
  exponent a = if positive fl a then div (of_int 1) a else of_int 1

  exponent_nonneg : (a : Carrier) → le (of_int 0) (exponent a) ≡ true
  unfolding exponent
  exponent_nonneg a = ground (arith, of_int_mono 0 1, div_nonneg (of_int 1) a)

  fraction_of_window :
      (elapsed window : ℕ) (e initial : Carrier)
      → elapsed < window
      → le (of_int 0) e ≡ true
      → le (pow (div (of_int elapsed) (of_int window)) e) (of_int 1) ≡ true
  fraction_of_window elapsed window e initial h p =
      let zero_le = of_int_mono 0 elapsed (omega arith) in
      let window_pos = of_int_pos window (omega arith) in
      pow_le_one _ e (div_nonneg _ _ zero_le window_pos)
        (div_le_one _ _ zero_le (of_int_mono elapsed window (omega arith)) window_pos) p

  -- The curve lies between the initial fraction and 1.
  pub ramp_fraction_bounds :
      (elapsed window : ℕ) (aggression initial : Carrier)
      → le initial (of_int 1) ≡ true
      → (le initial (ramp_fraction fl elapsed window aggression initial) ≡ true)
        × (le (ramp_fraction fl elapsed window aggression initial) (of_int 1) ≡ true)
  unfolding ramp_fraction exponent
  ramp_fraction_bounds elapsed window aggression initial h = ground (
    arith,
    le_refl initial,
    le_refl (of_int 1),
    of_int_mono 0 elapsed,
    of_int_mono 0 1,
    of_int_pos window,
    div_nonneg (of_int elapsed) (of_int window),
    exponent_nonneg aggression,
    le_total initial (pow (div (of_int elapsed) (of_int window)) (exponent aggression)),
    fraction_of_window elapsed window (exponent aggression) initial,
  )
