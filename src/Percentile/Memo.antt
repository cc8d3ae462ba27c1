-- ===== src/Percentile/Memo.antt =====
-- percentile.go: what a cached percentile is.
use r8e.Prelude.{ℕ, ◌≡◌, refl, sym, ap, ◌∙◌, true, List, [], ◌∷◌, arith, inl, inr, Bool-cases}
use r8e.Prelude.Float.{Float}
use r8e.Latency
use r8e.Latency.{LatencyWindow, epoch_of, quantile_snapshot}
use r8e.Percentile.{WindowedPercentile, is_cached, estimate, observe, invalidate}

module _ (fl : Float) where
  open fl use {Carrier}

  pub observes : WindowedPercentile fl → List (ℕ × ℕ) → WindowedPercentile fl
  observes e [] = e
  observes e ((at, d) ∷ ds) = observes (observe fl e at d) ds

  -- An observation keeps the cache and the length of an epoch.
  observes-kept :
      (ds : List (ℕ × ℕ)) (e : WindowedPercentile fl) (now : ℕ) (q : Carrier) (epoch : ℕ)
      → epoch_of fl e.window now ≡ epoch
      → is_cached fl e epoch ≡ true
      → (estimate fl (observes e ds) now q).0 ≡ (e.cached_value, e.cached_samples)
  unfolding observes observe estimate Latency.observe epoch_of is_cached
  observes-kept [] e now q epoch same c = rw (same, c) refl
  observes-kept ((at, d) ∷ ds) e now q epoch same c =
      observes-kept ds (observe fl e at d) now q epoch same c

  -- What an estimate leaves in the cache.
  estimate_cached :
      (e : WindowedPercentile fl) (now : ℕ) (q : Carrier)
      → let after = (estimate fl e now q).1 in
        (is_cached fl after (epoch_of fl e.window now) ≡ true)
        × (after.window ≡ e.window)
        × ((estimate fl e now q).0 ≡ (after.cached_value, after.cached_samples))
  unfolding estimate is_cached
  estimate_cached e now q = elim (Bool-cases (is_cached fl e (epoch_of fl e.window now))) [
    | inl t ↦ rw t (t, refl, refl)
    | inr f ↦ rw f (ground arith, refl, refl)
  ]

  -- An estimate is that of the window when nothing is cached for the epoch, as after an invalidation, and
  -- later ones of the same epoch repeat it, whatever their percentile and the samples that came in between.
  estimate_repeats :
      (e : WindowedPercentile fl) (now later : ℕ) (q r : Carrier) (ds : List (ℕ × ℕ))
      → epoch_of fl e.window later ≡ epoch_of fl e.window now
      → ((estimate fl (invalidate fl e) now q).0 ≡ quantile_snapshot fl e.window now q)
        × ((estimate fl (observes (estimate fl e now q).1 ds) later r).0 ≡ (estimate fl e now q).0)
  unfolding estimate invalidate is_cached
  estimate_repeats e now later q r ds same = (
    refl,
    let (cached, window, value) = estimate_cached e now q in
        let same_epoch = ap (λ (w : LatencyWindow fl). epoch_of fl w later) window ∙ same in
        observes-kept ds (estimate fl e now q).1 later r (epoch_of fl e.window now) same_epoch
          cached
        ∙ sym value,
  )
