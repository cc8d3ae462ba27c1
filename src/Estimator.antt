-- ===== src/Estimator.antt =====
-- timeout.go and hedge.go: adaptiveTimeout and adaptiveHedge. The two are alike but for their defaults:
-- a percentile of the latencies, and what is made of it.
pub mod Clamp
use r8e.Prelude.{
  ℕ, Bool, true, false, ◌||◌, Option, none, some, List, [], ◌∷◌, leb, ltb, if◌then◌else◌,
}
use r8e.Prelude.Float.{Float, lt}
use r8e.Policy.Options.{EstimatorConfig, EstimatorOption, apply_estimator_options}
use r8e.Percentile.{WindowedPercentile, new_windowed_percentile, estimate, observe, invalidate}
use r8e.Retry.{Result, ok, err}

module _ (fl : Float) where
  open fl use {Carrier, le, of_int, to_int, mul, div}

  pub record Estimator : Type 0 where
    pub percentile : WindowedPercentile fl
    pub cfg : EstimatorConfig fl

  -- The defaults of the percentile and of the multiplier, and which multipliers are valid.
  pub record EstimatorDefaults : Type 0 where
    pub percentile : Carrier
    pub multiplier : Carrier
    pub multiplier_ok : Carrier → Bool

  abbrev pub timeout_defaults : EstimatorDefaults
  timeout_defaults = record {
    percentile = div (of_int 99) (of_int 100);
    multiplier = of_int 2;
    multiplier_ok = λ m. le (of_int 1) m;
  }

  abbrev pub hedge_defaults : EstimatorDefaults
  hedge_defaults = record {
    percentile = div (of_int 95) (of_int 100);
    multiplier = of_int 1;
    multiplier_ok = λ m. lt fl (of_int 0) m;
  }

  -- resolve of both configurations. A floor is never negative here.
  unfoldable pub resolve : EstimatorDefaults → EstimatorConfig fl → EstimatorConfig fl
  resolve d c = record c {
    percentile =
        if le c.percentile (of_int 0) || lt fl (of_int 1) c.percentile
        then d.percentile
        else c.percentile;
    multiplier = if d.multiplier_ok c.multiplier then c.multiplier else d.multiplier;
    min_samples = if leb c.min_samples 0 then 20 else c.min_samples;
  }

  -- newAdaptiveTimeout and newAdaptiveHedge
  unfoldable pub new_estimator : EstimatorDefaults → EstimatorConfig fl → Estimator
  unfolding resolve
  new_estimator d cfg = record { percentile = new_windowed_percentile fl; cfg = resolve d cfg }

  -- The end of compute, for a percentile and its number of samples.
  unfoldable pub clamped : EstimatorConfig fl → ℕ × ℕ → ℕ → ℕ
  clamped cfg (value, samples) ceiling =
      let scaled = mul cfg.multiplier (of_int value) in
      let target = if lt fl scaled (of_int cfg.floor) then of_int cfg.floor else scaled in
      if ltb samples cfg.min_samples || le (of_int ceiling) target then ceiling else to_int target

  unfoldable pub compute : Estimator → ℕ → ℕ → ℕ × Estimator
  unfolding clamped
  compute e now ceiling =
      let (measured, percentile) = estimate fl e.percentile now e.cfg.percentile in
      (clamped e.cfg measured ceiling, record e { percentile = percentile })

  -- The method record: only a success is observed.
  unfoldable pub record_result {ℓ} : {T : Type ℓ} → Estimator → ℕ → ℕ → Result T → Estimator
  record_result e now elapsed (ok v) = record e { percentile = observe fl e.percentile now elapsed }
  record_result e now elapsed (err r) = e

  unfoldable pub reconfigure_estimator :
      EstimatorDefaults → Estimator → List (EstimatorOption fl) → Estimator
  unfolding resolve apply_estimator_options
  reconfigure_estimator d e opts = record {
    percentile = invalidate fl e.percentile;
    cfg = resolve d (apply_estimator_options fl opts e.cfg);
  }
