-- ===== src/Estimator/Clamp.antt =====
-- timeout.go and hedge.go: the bounds of what an estimator computes.
use r8e.Prelude.{
  ℕ, ◌≤◌, ◌^◌, ◌≡◌, Bool, true, false, ◌||◌, arith, inl, inr, Bool-cases, ltb, min, if◌then◌else◌,
}
use r8e.Prelude.Float.{Float, lt, FloatLaws, FloatExact}
use r8e.Policy.Options.{EstimatorConfig}
use r8e.Percentile.{estimate}
use r8e.Estimator.{Estimator, clamped, compute}

or-false : (a b : Bool) → (a || b) ≡ false → b ≡ false
or-false true b h = grind (arith, h)
or-false false b h = h

module _ (fl : Float) (laws : FloatLaws fl) (exact : FloatExact fl) where
  open fl use {Carrier, le, of_int, to_int, mul}
  open laws use {to_int_mono}
  open laws.order use {le_refl, le_total}
  open exact use {to_int_exact}

  to_int_below :
      (t : Carrier) (ceiling : ℕ)
      → ceiling ≤ 2 ^ 53
      → le (of_int ceiling) t ≡ false
      → to_int t ≤ ceiling
  to_int_below t ceiling b f =
      let le_ceiling : le t (of_int ceiling) ≡ true =
        grind (arith, le_total t (of_int ceiling), f) in
      omega (arith, to_int_mono t (of_int ceiling) le_ceiling, to_int_exact ceiling b)

  to_int_above :
      (t : Carrier) (floor : ℕ) → floor ≤ 2 ^ 53 → le (of_int floor) t ≡ true → floor ≤ to_int t
  to_int_above t floor b h = omega (arith, to_int_mono (of_int floor) t h, to_int_exact floor b)

  floored :
      (scaled : Carrier) (floor : ℕ)
      → le (of_int floor) (if lt fl scaled (of_int floor) then of_int floor else scaled) ≡ true
  floored scaled floor = elim (Bool-cases (le (of_int floor) scaled)) [
    | inl t ↦ rw t t
    | inr f ↦ rw f (le_refl (of_int floor))
  ]

  clamped-bounds :
      (cfg : EstimatorConfig fl) (measured : ℕ × ℕ) (ceiling : ℕ)
      → ceiling ≤ 2 ^ 53
      → cfg.floor ≤ 2 ^ 53
      → (clamped fl cfg measured ceiling ≤ ceiling)
        × (min cfg.floor ceiling ≤ clamped fl cfg measured ceiling)
  unfolding clamped
  clamped-bounds cfg (value, samples) ceiling b c =
      let scaled = mul cfg.multiplier (of_int value) in
      let target = if lt fl scaled (of_int cfg.floor) then of_int cfg.floor else scaled in
      let above = to_int_above target cfg.floor c (floored scaled cfg.floor) in
      elim (Bool-cases (ltb samples cfg.min_samples || le (of_int ceiling) target)) [
        | inl t ↦ rw t (omega arith, omega arith)
        | inr f ↦ rw f (
          to_int_below target ceiling b (or-false (ltb samples cfg.min_samples) _ f),
          omega (arith, above),
        )
      ]

  -- A time that an adaptive timeout or an adaptive hedge computes, of durations of at most 2 ^ 53 ns, is at
  -- most the ceiling, and at least the floor unless the ceiling is below it.
  pub compute-bounds :
      (e : Estimator fl) (now ceiling : ℕ)
      → ceiling ≤ 2 ^ 53
      → e.cfg.floor ≤ 2 ^ 53
      → ((compute fl e now ceiling).0 ≤ ceiling)
        × (min e.cfg.floor ceiling ≤ (compute fl e now ceiling).0)
  unfolding compute
  compute-bounds e now ceiling b c =
      clamped-bounds e.cfg (estimate fl e.percentile now e.cfg.percentile).0 ceiling b c
