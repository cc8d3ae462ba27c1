-- ===== src/Latency/Samples.antt =====
-- latency.go: the merged histogram against the list of all samples. Seen at one index, a bucket is one of
-- the window of throttle.go and slo.go, whose theorem is used.
use r8e.Prelude.{
  ℕ, zero, suc, ◌+◌, ◌%◌, ◌≤◌, ◌≡◌, refl, ap, ap₂, ◌∙◌, Bool, true, false, ◌&&◌, none, List, [],
  ◌∷◌, ◌==◌, arith, inl, inr, Bool-cases, if◌then◌else◌,
}
use r8e.Prelude.Float.{Float}
use r8e.Window
use r8e.Window.{Bucket, amount, no_buckets, live, sum_to, sums}
use r8e.Window.Log.{Entry, Ordered, logged, observe_all, sums-observe_all, epoch_of_mono}
use r8e.Latency.{
  LatencyBucket, LatencyWindow, counts_of, counted, held_for, bucket_for, is_live, merged_to,
  total_to, new_latency_window, index, epoch_of, observe, merge,
}

-- A bucket as seen at one index.
seen : ℕ → LatencyBucket → Bucket
seen j b = record { epoch = b.epoch; total = b.total; marked = counts_of b.counts j }

-- No bucket counts more at an index than in all, and one without counts has none.
record Sound (b : LatencyBucket) : Type 0 where
  pub bounded : (j : ℕ) → counts_of b.counts j ≤ b.total
  pub empty : (b.counts ≡ none) → b.total ≡ 0

held_for-seen :
    (b : LatencyBucket) (epoch j : ℕ)
    → Sound b
    → seen j (held_for b epoch)
      ≡ (if b.epoch == epoch then seen j b else record { epoch = epoch; total = 0; marked = 0 })
unfolding held_for seen
held_for-seen b epoch j v = ground (arith, v.empty, v.bounded j)

held_for-Sound : (b : LatencyBucket) (epoch : ℕ) → Sound b → Sound (held_for b epoch)
unfolding held_for
held_for-Sound b epoch v = record {
  bounded = λ j. ground (arith, v.bounded j);
  empty = λ e. ground (arith, e);
}

counted-Sound : (b : LatencyBucket) (idx : ℕ) → Sound b → Sound (counted b idx)
counted-Sound b idx v = record {
  bounded = λ j. ground (arith, v.bounded j);
  empty = λ e. ground (arith, e);
}

-- The slots of the window: those of the same window as seen at one index.
all_seen : ℕ → (ℕ → LatencyBucket) → Window.Buckets
unfolding seen
all_seen j buckets i = seen j (buckets i)

is_live-seen :
    (b : LatencyBucket) (current j : ℕ) (all : Bool) (before : ℕ)
    → Sound b
    → (if is_live b current then before + amount all b.total (counts_of b.counts j) else before) ≡ (
        if live b.epoch current then before + amount all b.total (counts_of b.counts j) else before)
unfolding is_live live
is_live-seen b current j true before v = ground (arith, v.bounded j, v.empty)
is_live-seen b current j false before v = ground (arith, v.bounded j, v.empty)

merged_to-seen :
    (n : ℕ) (buckets : ℕ → LatencyBucket) (current j : ℕ)
    → ((i : ℕ) → Sound (buckets i))
    → (total_to n buckets current ≡ sum_to true n (all_seen j buckets) current)
      × (merged_to n buckets current j ≡ sum_to false n (all_seen j buckets) current)
unfolding merged_to total_to sum_to all_seen seen
merged_to-seen zero buckets current j v = (refl, refl)
merged_to-seen (suc n) buckets current j v =
    let (t, m) = merged_to-seen n buckets current j v in
    (
      is_live-seen (buckets n) current j true (total_to n buckets current) (v n)
          ∙ ap (λ (x : ℕ). if live (buckets n).epoch current then x + (buckets n).total else x) t,
      is_live-seen (buckets n) current j false (merged_to n buckets current j) (v n)
          ∙ ap
              (λ (x : ℕ).
                if live (buckets n).epoch current then x + counts_of (buckets n).counts j else x)
              m,
    )

module _ (fl : Float) where
  -- Samples: their times and latencies, the latest first. Time does not go back.
  abbrev pub InOrder : ℕ → List (ℕ × ℕ) → Type 0
  InOrder now [] = Unit
  InOrder now ((at, d) ∷ ds) = (at ≤ now) × InOrder at ds

  pub observe_samples : LatencyWindow fl → List (ℕ × ℕ) → LatencyWindow fl
  observe_samples w [] = w
  observe_samples w ((at, d) ∷ ds) = observe fl (observe_samples w ds) at d

  -- The samples in the ten buckets that end with the one of `now`, and those of one index.
  unfoldable pub samples_in : LatencyWindow fl → List (ℕ × ℕ) → ℕ → ℕ
  samples_in w [] now = 0
  samples_in w ((at, d) ∷ ds) now =
      let before = samples_in w ds now in
      if live (epoch_of fl w at) (epoch_of fl w now) then before + 1 else before

  unfoldable pub samples_at : LatencyWindow fl → List (ℕ × ℕ) → ℕ → ℕ → ℕ
  samples_at w [] now j = 0
  samples_at w ((at, d) ∷ ds) now j =
      let before = samples_at w ds now j in
      if live (epoch_of fl w at) (epoch_of fl w now) && j == index fl w d
      then before + 1
      else before

  log : LatencyWindow fl → ℕ → List (ℕ × ℕ) → List Entry
  log w j [] = []
  log w j ((at, d) ∷ ds) =
      record { epoch = epoch_of fl w at; total = 1; marked = if j == index fl w d then 1 else 0 }
      ∷ log w j ds

  log-Ordered :
      (w : LatencyWindow fl) (j : ℕ) (ds : List (ℕ × ℕ)) (now : ℕ)
      → InOrder now ds
      → Ordered (epoch_of fl w now) (log w j ds)
  unfolding log epoch_of Window.epoch_of
  log-Ordered w j [] now v = tt
  log-Ordered w j ((at, d) ∷ ds) now (h, v) =
      (epoch_of_mono w.bucket_nanos at now h, log-Ordered w j ds at v)

  logged_log :
      (w : LatencyWindow fl) (j : ℕ) (ds : List (ℕ × ℕ)) (now : ℕ)
      → (logged true (log w j ds) (epoch_of fl w now) ≡ samples_in w ds now)
        × (logged false (log w j ds) (epoch_of fl w now) ≡ samples_at w ds now j)
  unfolding log logged samples_in samples_at
  logged_log w j [] now = (refl, refl)
  logged_log w j ((at, d) ∷ ds) now = ground (arith, logged_log w j ds now)

  -- The buckets after the samples, by the geometry of a window.
  pub fill : LatencyWindow fl → List (ℕ × ℕ) → ℕ → LatencyBucket
  fill w [] = w.buckets
  fill w ((at, d) ∷ ds) = (observe fl (record w { buckets = fill w ds }) at d).buckets

  pub observe_samples-fill :
      (w : LatencyWindow fl) (ds : List (ℕ × ℕ))
      → observe_samples w ds ≡ record w { buckets = fill w ds }
  unfolding observe_samples fill observe
  observe_samples-fill w [] = refl
  observe_samples-fill w ((at, d) ∷ ds) =
      ap (λ (x : LatencyWindow fl). observe fl x at d) (observe_samples-fill w ds)

  fill-Sound :
      (w : LatencyWindow fl) (ds : List (ℕ × ℕ)) (i : ℕ)
      → ((k : ℕ) → Sound (w.buckets k))
      → Sound (fill w ds i)
  unfolding fill observe bucket_for
  fill-Sound w [] i v = v i
  fill-Sound w ((at, d) ∷ ds) i v =
      let epoch = epoch_of fl w at in
      elim (Bool-cases (i == epoch % 10)) [
        | inl t ↦ rw t (
            counted-Sound _ (index fl w d)
              (held_for-Sound _ epoch (fill-Sound w ds (epoch % 10) v)))
        | inr f ↦ rw f (fill-Sound w ds i v)
      ]

  fill-seen :
      (w : LatencyWindow fl) (ds : List (ℕ × ℕ)) (j i : ℕ)
      → ((k : ℕ) → Sound (w.buckets k))
      → ((k : ℕ) → seen j (w.buckets k) ≡ no_buckets k)
      → all_seen j (fill w ds) i ≡ observe_all no_buckets (log w j ds) i
  unfolding fill observe bucket_for all_seen log observe_all Window.observe Window.bucket_for
  fill-seen w [] j i v e = e i
  fill-seen w ((at, d) ∷ ds) j i v e =
      let epoch = epoch_of fl w at in
      let before = fill-seen w ds j (epoch % 10) v e in
      elim (Bool-cases (i == epoch % 10)) [
        | inl t ↦ rw t (
            ap
              (λ (b : Bucket). record b {
                total = b.total + 1;
                marked = b.marked + (if j == index fl w d then 1 else 0);
              })
              (held_for-seen (fill w ds (epoch % 10)) epoch j (fill-Sound w ds (epoch % 10) v)
                ∙ ap
                    (λ (b : Bucket).
                      if b.epoch == epoch
                      then b
                      else record { epoch = epoch; total = 0; marked = 0 })
                    before))
        | inr f ↦ rw f (fill-seen w ds j i v e)
      ]

  new-Sound : (k : ℕ) → Sound ((new_latency_window fl).buckets k)
  unfolding new_latency_window
  new-Sound k = record { bounded = λ j. omega arith; empty = λ e. refl }

  new-seen : (j k : ℕ) → seen j ((new_latency_window fl).buckets k) ≡ no_buckets k
  unfolding new_latency_window seen no_buckets
  new-seen j k = refl

  fill-sums :
      (ds : List (ℕ × ℕ)) (now j : ℕ)
      → InOrder now ds
      → let w = new_latency_window fl in
        sums (all_seen j (fill w ds)) (epoch_of fl w now)
        ≡ (samples_in w ds now, samples_at w ds now j)
  fill-sums ds now j v =
      let w = new_latency_window fl in
      let current = epoch_of fl w now in
      let (t, m) = logged_log w j ds now in
      ap (λ (b : Window.Buckets). sums b current)
        (λ k i. fill-seen w ds j i new-Sound (new-seen j) k)
      ∙ sums-observe_all (log w j ds) current current (log-Ordered w j ds now v) (omega arith)
      ∙ ap₂ (λ (a b : ℕ). (a, b)) t m

  -- In a window that starts empty, the merged histogram is that of the samples of the last ten buckets.
  pub merge-samples :
      (ds : List (ℕ × ℕ)) (now j : ℕ)
      → InOrder now ds
      → let w = new_latency_window fl in
        ((merge fl (observe_samples w ds) now).1 ≡ samples_in w ds now)
        × ((merge fl (observe_samples w ds) now).0 j ≡ samples_at w ds now j)
  unfolding merge sums
  merge-samples ds now j v =
      let w = new_latency_window fl in
      let (t, m) =
        merged_to-seen 10 (fill w ds) (epoch_of fl w now) j (λ i. fill-Sound w ds i new-Sound) in
      let filled = observe_samples-fill w ds in
      let counts = fill-sums ds now j v in
      (
        ap (λ (x : LatencyWindow fl). (merge fl x now).1) filled
            ∙ t
            ∙ ap (λ (x : ℕ × ℕ). x.0) counts,
        ap (λ (x : LatencyWindow fl). (merge fl x now).0 j) filled
            ∙ m
            ∙ ap (λ (x : ℕ × ℕ). x.1) counts,
      )
