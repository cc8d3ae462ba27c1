-- ===== src/Latency/Quantile.antt =====
-- latency.go: the percentiles of the window against the samples themselves.
use r8e.Prelude.{
  ℕ, zero, suc, ◌+◌, ◌-◌, ◌<◌, ◌≡◌, refl, sym, ap, ◌∙◌, Bool, true, false, ◌&&◌, Option, none, some,
  List, [], ◌∷◌, ltb, ◌==◌, arith, inl, inr, Bool-cases, subst, if◌then◌else◌,
}
use r8e.Prelude.Float.{Float}
use r8e.Window.{live}
use r8e.Latency.{
  Counts, LatencyBucket, LatencyWindow, new_latency_window, index, epoch_of, value_at, merge,
  rank_from, quantile, quantile_snapshot,
}
use r8e.Latency.Samples.{
  InOrder, observe_samples, samples_in, samples_at, fill, observe_samples-fill, merge-samples,
}

-- No number below the bound passes the test.
abbrev pub NoneBelow : (ℕ → Bool) → ℕ → Type 0
NoneBelow p zero = Unit
NoneBelow p (suc n) = (p n ≡ false) × NoneBelow p n

-- The least number below the size that passes the test, or none.
abbrev pub Least : (ℕ → Bool) → ℕ → Option ℕ → Type 0
Least p size none = NoneBelow p size
Least p size (some i) = (i < size) × (p i ≡ true) × NoneBelow p i

NoneBelow-next : (p : ℕ → Bool) (i : ℕ) → p i ≡ false → NoneBelow p i → NoneBelow p (i + 1)
NoneBelow-next p i f v = let next : suc i ≡ i + 1 = omega arith in subst (NoneBelow p) next (f, v)

module _ (fl : Float) where
  open fl use {Carrier, le, of_int, mul}

  -- The samples in the ten buckets that end with the one of `now`, of an index below the bound.
  unfoldable pub samples_below : LatencyWindow fl → List (ℕ × ℕ) → ℕ → ℕ → ℕ
  samples_below w [] now n = 0
  samples_below w ((at, d) ∷ ds) now n =
      let before = samples_below w ds now n in
      if live (epoch_of fl w at) (epoch_of fl w now) && ltb (index fl w d) n
      then before + 1
      else before

  -- The samples up to an index are enough for the fraction `q` of all.
  unfoldable pub enough : LatencyWindow fl → List (ℕ × ℕ) → ℕ → Carrier → ℕ → Bool
  enough w ds now q i =
      le (mul q (of_int (samples_in fl w ds now))) (of_int (samples_below w ds now (i + 1)))

  -- The latency that stands for a rank, the last one if there is none.
  unfoldable pub latency_of : LatencyWindow fl → Option ℕ → ℕ
  latency_of w rank = elim rank [ some i ↦ value_at fl w i | none ↦ value_at fl w (w.size - 1) ]

  samples_below_zero :
      (w : LatencyWindow fl) (ds : List (ℕ × ℕ)) (now : ℕ) → samples_below w ds now 0 ≡ 0
  unfolding samples_below
  samples_below_zero w [] now = refl
  samples_below_zero w ((at, d) ∷ ds) now = ground (arith, samples_below_zero w ds now)

  samples_below_suc :
      (w : LatencyWindow fl) (ds : List (ℕ × ℕ)) (now i : ℕ)
      → samples_below w ds now (i + 1) ≡ samples_below w ds now i + samples_at fl w ds now i
  unfolding samples_below samples_at
  samples_below_suc w [] now i = refl
  samples_below_suc w ((at, d) ∷ ds) now i = ground (arith, samples_below_suc w ds now i)

  -- The loop finds the least index, when its running count is the function `below`.
  rank_from-Least :
      (counts : Counts) (below : ℕ → ℕ) (target : Carrier) (size left i cum : ℕ)
      → ((j : ℕ) → below (j + 1) ≡ below j + counts j)
      → i + left ≡ size
      → cum ≡ below i
      → NoneBelow (λ j. le target (of_int (below (j + 1)))) i
      → Least (λ j. le target (of_int (below (j + 1)))) size (rank_from fl counts target left i cum)
  unfolding rank_from
  rank_from-Least counts below target size zero i cum s e c v =
      subst (NoneBelow _) (omega (arith, e)) v
  rank_from-Least counts below target size (suc left) i cum s e c v =
      let counted : cum + counts i ≡ below (i + 1) = omega (arith, c, s i) in
      elim (Bool-cases (le target (of_int (below (i + 1))))) [
        | inl t ↦ rw (counted, t) (omega (arith, e), t, v)
        | inr f ↦
            rw (counted, f)
              (rank_from-Least counts below target size left (i + 1) (below (i + 1)) s
                (omega (arith, e)) refl
                (NoneBelow-next (λ j. le target (of_int (below (j + 1)))) i f v))
      ]

  -- The tail of quantileSnapshot.
  snapshot_of : LatencyWindow fl → Carrier → Counts × ℕ → ℕ × ℕ
  snapshot_of w q (merged, total) =
      if total == 0 then (0, 0) else (quantile fl w merged total q, total)

  merge_all :
      (ds : List (ℕ × ℕ)) (now : ℕ)
      → InOrder fl now ds
      → let w = new_latency_window fl in
        merge fl (observe_samples fl w ds) now ≡ (samples_at fl w ds now, samples_in fl w ds now)
  merge_all ds now v k =
      ((λ j. (merge-samples fl ds now j v).1 k), (merge-samples fl ds now 0 v).0 k)

  quantile-latency_of :
      (w : LatencyWindow fl) (buckets : ℕ → LatencyBucket) (counts : Counts) (total : ℕ)
      (q : Carrier)
      → quantile fl (record w { buckets = buckets }) counts total q
        ≡ latency_of w (rank_from fl counts (mul q (of_int total)) w.size 0 0)
  unfolding quantile latency_of value_at
  quantile-latency_of w buckets counts total q = refl

  -- Of samples in order, a percentile is that of the least index up to which enough of the samples in the
  -- window are counted, with their number, and zero if there are none.
  pub quantile_snapshot-samples :
      (ds : List (ℕ × ℕ)) (now : ℕ) (q : Carrier)
      → InOrder fl now ds
      → let w = new_latency_window fl in
        let total = samples_in fl w ds now in
        (r : Option ℕ) × Least (enough w ds now q) w.size r
        × (quantile_snapshot fl (observe_samples fl w ds) now q
            ≡ (if total == 0 then (0, 0) else (latency_of w r, total)))
  unfolding quantile_snapshot enough snapshot_of
  quantile_snapshot-samples ds now q v =
      let w = new_latency_window fl in
      let total = samples_in fl w ds now in
      let target = mul q (of_int total) in
      let counts = samples_at fl w ds now in
      (
        rank_from fl counts target w.size 0 0,
        rank_from-Least counts (samples_below w ds now) target w.size w.size 0 0
            (samples_below_suc w ds now) (omega arith) (sym (samples_below_zero w ds now)) tt,
        ap (snapshot_of (observe_samples fl w ds) q) (merge_all ds now v)
            ∙ ap (λ (x : LatencyWindow fl). snapshot_of x q (counts, total))
                (observe_samples-fill fl w ds)
            ∙ ap (λ (x : ℕ). if total == 0 then (0, 0) else (x, total))
                (quantile-latency_of w (fill fl w ds) counts total q),
      )
