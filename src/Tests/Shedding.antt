-- ===== src/Tests/Shedding.antt =====
-- throttle.go and slo.go at concrete inputs, over numbers of thousandths.
use r8e.Prelude.{ℕ, ◌≤◌, ◌≡◌, true, Option, none, some, List, [], ◌∷◌, ◌⊎◌}
use r8e.Prelude.Thousandths.{thousandths, thousandths_laws}
use r8e.Errors.{Error, foreign}
use r8e.Sheddability.{sheddability_default}
use r8e.Throttle.{
  Throttler, new_throttler, throttle_window, min_requests, probability, default_throttle_config,
  apply_config, clamp,
}
use r8e.Throttle.History.{Call, admits, records}
use r8e.Throttle.Bounds.{probability-bounds}
use r8e.Slo.{
  SloGovernor, new_slo_governor, slo_long_window, slo_short_window, slo_min_requests,
  shed_probability_of, burn_rate_of,
}
use r8e.Slo.History
use r8e.Slo.Bounds.{shed_probability_of_cases}

abbrev throttler : Throttler thousandths
throttler = new_throttler thousandths (throttle_window 100 ∷ min_requests 2 ∷ [])

-- A request that is accepted and then leaves the window, and three that fail.
abbrev calls : List (Call thousandths)
calls =
    records 207 (some (foreign 1))
    ∷ admits 206 sheddability_default 999
    ∷ admits 205 sheddability_default 999
    ∷ admits 200 sheddability_default 999
    ∷ records 20 none
    ∷ admits 10 sheddability_default 999
    ∷ []

probability-bounds_example :
    let t =
      apply_config thousandths throttler
        (clamp thousandths (default_throttle_config thousandths)) in
    (thousandths.le 0 (probability thousandths t 12 2) ≡ true)
    × (thousandths.le (probability thousandths t 12 2) t.max_rejection_rate ≡ true)
    × (thousandths.le t.max_rejection_rate 1000 ≡ true)
    × ((probability thousandths t 12 2 ≡ 0) ⊎ (t.min_requests ≤ 12))
probability-bounds_example =
    probability-bounds thousandths thousandths_laws throttler (default_throttle_config thousandths)
      12 2

abbrev governor : SloGovernor thousandths
governor =
    new_slo_governor thousandths 900
      (slo_long_window 1000 ∷ slo_short_window 100 ∷ slo_min_requests 2 ∷ [])

abbrev results : List (ℕ × Option Error)
results =
    (560, some (foreign 1)) ∷ (550, some (foreign 1)) ∷ (530, none) ∷ (20, some (foreign 1)) ∷ []

shed_probability_of_cases_example :
    let p = shed_probability_of thousandths governor (3, 2) (4, 3) in
    (p ≡ 0)
    ⊎ ((governor.min_requests ≤ 3)
        × (thousandths.le governor.burn_threshold (burn_rate_of thousandths governor (3, 2)).0
            ≡ true)
        × (thousandths.le governor.burn_threshold (burn_rate_of thousandths governor (4, 3)).0
            ≡ true)
        × (thousandths.le 0 p ≡ true)
        × (thousandths.le p governor.max_shed_rate ≡ true))
shed_probability_of_cases_example =
    shed_probability_of_cases thousandths thousandths_laws.order governor (3, 2) (4, 3)
