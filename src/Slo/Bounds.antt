-- ===== src/Slo/Bounds.antt =====
-- slo.go: when a governor sheds, and how much at most.
use r8e.Prelude.{ℕ, ◌≤◌, ◌≡◌, true, arith, ◌⊎◌}
use r8e.Prelude.Float.{Float, FloatOrder}
use r8e.Slo.{SloGovernor, shed_probability_of, burn_rate_of, shed_fraction}

module _ (fl : Float) (order : FloatOrder fl) where
  open fl use {Carrier, le, of_int, sub, div}
  open order use {le_refl, le_total}

  samples : (g : SloGovernor fl) (s : ℕ × ℕ) → (burn_rate_of fl g s).1 ≡ s.0
  unfolding burn_rate_of
  samples g s = ground arith

  shed_fraction_cases :
      (b t m : Carrier)
      → (shed_fraction fl b t m ≡ of_int 0)
        ⊎ ((le (of_int 0) (shed_fraction fl b t m) ≡ true) × (le (shed_fraction fl b t m) m ≡ true))
  unfolding shed_fraction
  shed_fraction_cases b t m = ground (arith, le_refl m, le_total (sub (of_int 1) (div t b)) m)

  -- A governor sheds nothing unless the short window has MinRequests outcomes and the burn rates of
  -- both windows are BurnThreshold at least; what it then sheds, if anything, is between 0 and
  -- MaxShedRate.
  pub shed_probability_of_cases :
      (g : SloGovernor fl) (short long : ℕ × ℕ)
      → let p = shed_probability_of fl g short long in
        (p ≡ of_int 0)
        ⊎ ((g.min_requests ≤ short.0)
            × (le g.burn_threshold (burn_rate_of fl g short).0 ≡ true)
            × (le g.burn_threshold (burn_rate_of fl g long).0 ≡ true)
            × (le (of_int 0) p ≡ true)
            × (le p g.max_shed_rate ≡ true))
  unfolding shed_probability_of
  shed_probability_of_cases g short long = ground (
    arith,
    samples g short,
    shed_fraction_cases (burn_rate_of fl g short).0 g.burn_threshold g.max_shed_rate,
  )
