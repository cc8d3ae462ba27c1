-- ===== src/Percentile.antt =====
-- percentile.go: a percentile of the latency window, kept for one epoch of the window. No epoch is cached
-- at first and after an invalidation.
pub mod Memo
use r8e.Prelude.{ℕ, Bool, true, false, Option, none, some, ◌==◌, if◌then◌else◌}
use r8e.Prelude.Float.{Float}
use r8e.Latency
use r8e.Latency.{LatencyWindow, new_latency_window, epoch_of, quantile_snapshot}

module _ (fl : Float) where
  open fl use {Carrier}

  pub record WindowedPercentile : Type 0 where
    pub window : LatencyWindow fl
    pub cached_value : ℕ
    pub cached_samples : ℕ
    pub cached_epoch : Option ℕ

  unfoldable pub new_windowed_percentile : WindowedPercentile
  new_windowed_percentile = record {
    window = new_latency_window fl;
    cached_value = 0;
    cached_samples = 0;
    cached_epoch = none;
  }

  unfoldable pub is_cached : WindowedPercentile → ℕ → Bool
  is_cached e epoch = elim e.cached_epoch [ some cached ↦ cached == epoch | none ↦ false ]

  -- The percentile and the number of samples behind it.
  unfoldable pub estimate : WindowedPercentile → ℕ → Carrier → (ℕ × ℕ) × WindowedPercentile
  unfolding is_cached
  estimate e now percentile =
      let epoch = epoch_of fl e.window now in
      let (latency, samples) = quantile_snapshot fl e.window now percentile in
      if is_cached e epoch then ((e.cached_value, e.cached_samples), e) else (
        (latency, samples),
        record e { cached_value = latency; cached_samples = samples; cached_epoch = some epoch },
      )

  unfoldable pub observe : WindowedPercentile → ℕ → ℕ → WindowedPercentile
  observe e now elapsed = record e { window = Latency.observe fl e.window now elapsed }

  unfoldable pub invalidate : WindowedPercentile → WindowedPercentile
  invalidate e = record e { cached_epoch = none }
