-- ===== src/Breaker/History.antt =====
-- circuitbreaker.go: slowCallWindow against the history of the verdicts, the newest first.
use r8e.Prelude.{
  ℕ, suc, ◌-◌, ◌≡◌, ◌≢◌, refl, ap, Bool, List, [], ◌∷◌, ◌++◌, reverse, min, max, arith, length,
  take,
}
use r8e.Breaker.Window.{SlowCallWindow, observe, resized}
use r8e.Breaker.Verdicts.{count_slow, count_slow-append, count_slow-reverse, count_slow-padded}
use r8e.Breaker.Ring.{Holds, ring_slow, fresh-Holds, kept-Holds, written-Holds}

-- The window after a history of verdicts under one size.
unfoldable pub observe_all : SlowCallWindow → ℕ → List Bool → SlowCallWindow
observe_all w size [] = w
observe_all w size (v ∷ hs) = observe (observe_all w size hs) v size

module _ (w : SlowCallWindow) (size m : ℕ) (e : max 1 size ≡ suc m) where
  observed-Holds :
      (hs : List Bool) (v : Bool)
      → Holds m hs (resized (observe_all w size hs) size)
      → Holds m (v ∷ hs) (observe_all w size (v ∷ hs))
  unfolding observe_all observe
  observed-Holds hs v h = written-Holds m hs _ v h.back h refl

  observe_all-Holds :
      (hs : List Bool) → length w.ring ≢ suc m → Holds m hs (resized (observe_all w size hs) size)
  unfolding observe_all
  observe_all-Holds [] ne = fresh-Holds m w size e ne
  observe_all-Holds (v ∷ hs) ne =
      let h = observed-Holds hs v (observe_all-Holds hs ne) in
      rw (kept-Holds m (v ∷ hs) (observe_all w size (v ∷ hs)) size e h) h

Holds-slow :
    (m : ℕ) (hs : List Bool) (w : SlowCallWindow)
    → Holds m hs w
    → w.slow ≡ count_slow (take (suc m) hs)
unfolding count_slow
Holds-slow m hs w h = omega (
  arith,
  h.slow_count,
  ring_slow m hs w h,
  ap count_slow h.recent,
  count_slow-append (reverse h.front ++ reverse h.back) (h.old ∷ []),
  count_slow-append (reverse h.front) (reverse h.back),
  count_slow-reverse h.front,
  count_slow-reverse h.back,
  count_slow-padded (suc m) (suc m) hs,
)

-- A window that is new, or whose size was changed, holds after any verdicts what the last `size` of
-- them say: how many there were, up to the size, and how many of those were slow.
pub observe_all_last :
    (w : SlowCallWindow) (size : ℕ) (v : Bool) (hs : List Bool)
    → length w.ring ≢ max 1 size
    → ((observe_all w size (v ∷ hs)).slow ≡ count_slow (take (max 1 size) (v ∷ hs)))
      × ((observe_all w size (v ∷ hs)).filled ≡ min (length (v ∷ hs)) (max 1 size))
observe_all_last w size v hs ne =
    let m = max 1 size - 1 in
    let e : max 1 size ≡ suc m = omega arith in
    let h = observed-Holds w size m e hs v (observe_all-Holds w size m e hs (rw e at ne)) in
    rw e (Holds-slow m (v ∷ hs) _ h, h.filled_min)
