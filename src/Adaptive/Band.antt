-- ===== src/Adaptive/Band.antt =====
-- adaptive.go: callers of the limiter, its band and its count of the calls under way.
use r8e.Prelude.{
  ℕ, suc, ◌-◌, ◌≤◌, ◌≡◌, refl, ap, ◌∙◌, true, Option, none, some, List, [], ◌∷◌, ◌++◌, leb, arith,
  length, inl, inr, Bool-cases,
}
use r8e.Prelude.Float.{Float, FloatLaws, FloatExact, lt, fmin, fmax}
use r8e.Policy.Options.{AdaptiveOption}
use r8e.Adaptive.{
  AdaptiveLimiter, AdaptiveConfig, clamp, new_adaptive_limiter, admit, recompute, fold_baseline,
  next_limit, observe, complete, reconfigure, apply_options, initial_config, current_config,
}

module _ (fl : Float) where
  -- The limiter and the admission times of the calls under way.
  pub record System : Type 0 where
    pub limiter : AdaptiveLimiter fl
    pub calls : List ℕ

  abbrev joined_by : List ℕ → Option ℕ → List ℕ
  joined_by calls none = calls
  joined_by calls (some start) = start ∷ calls

  pub data Step : System → System → Type 0 where
    admits :
        (s : System) (now : ℕ)
        → Step s (record {
          limiter = (admit fl s.limiter now).0;
          calls = joined_by s.calls (admit fl s.limiter now).1;
        })
    completes :
        (s : System) (xs ys : List ℕ) (start now : ℕ)
        → s.calls ≡ xs ++ (start ∷ ys)
        → Step s (record { limiter = (complete fl s.limiter start now).0; calls = xs ++ ys })
    reconfigures :
        (s : System) (opts : List (AdaptiveOption fl))
        → Step s (record s { limiter = reconfigure fl s.limiter opts })

  pub data Reach : System → Type 0 where
    begin :
        (opts : List (AdaptiveOption fl))
        → Reach (record { limiter = new_adaptive_limiter fl opts; calls = [] })
    later : {s t : System} → Reach s → Step s t → Reach t

  pub record InBand (s : System) : Type 0 where
    pub counted : s.limiter.in_flight ≡ length s.calls
    pub at_least : fl.le s.limiter.min_limit s.limiter.limit ≡ true
    pub at_most : fl.le s.limiter.limit s.limiter.max_limit ≡ true
    pub ordered : fl.le s.limiter.min_limit s.limiter.max_limit ≡ true
    pub useful : 1 ≤ fl.to_int s.limiter.limit

length-at : (xs ys : List ℕ) (x : ℕ) → length (xs ++ (x ∷ ys)) ≡ suc (length (xs ++ ys))
length-at [] ys x = refl
length-at (y ∷ xs) ys x = ap suc (length-at xs ys x)

module _ (fl : Float) (laws : FloatLaws fl) (exact : FloatExact fl) where
  open fl use {Carrier, le, of_int, to_int, div}
  open laws use {order, of_int_mono, to_int_mono}
  open order use {le_refl, le_trans, le_total}

  -- What the builtins min and max do to the ends of a band.
  banded :
      (x low high : Carrier)
      → le low high ≡ true
      → (le low (fmin fl (fmax fl x low) high) ≡ true)
        × (le (fmin fl (fmax fl x low) high) high ≡ true)
  banded x low high h =
      ground (arith, h, le_total x low, le_total (fmax fl x low) high, le_refl low, le_refl high)

  clamp_band :
      (c : AdaptiveConfig fl)
      → (1 ≤ (clamp fl c).min_limit)
        × ((clamp fl c).min_limit ≤ (clamp fl c).initial_limit)
        × ((clamp fl c).initial_limit ≤ (clamp fl c).max_limit)
        × ((clamp fl c).min_limit ≤ (clamp fl c).max_limit)
  unfolding clamp
  clamp_band c = ground arith

  useful_limit : (low x : Carrier) → le (of_int 1) low ≡ true → le low x ≡ true → 1 ≤ to_int x
  useful_limit low x h k = omega (
    arith,
    exact.to_int_exact 1 (omega arith),
    to_int_mono (of_int 1) x (le_trans (of_int 1) low x h k),
  )

  -- The lower end is at least one, and the limit is in the band.
  record Band (a : AdaptiveLimiter fl) : Type 0 where
    lowest : le (of_int 1) a.min_limit ≡ true
    at_least : le a.min_limit a.limit ≡ true
    at_most : le a.limit a.max_limit ≡ true
    ordered : le a.min_limit a.max_limit ≡ true

  new-Band : (opts : List (AdaptiveOption fl)) → Band (new_adaptive_limiter fl opts)
  unfolding new_adaptive_limiter
  new-Band opts =
      let (one, low, high, both) = clamp_band (apply_options fl opts (initial_config fl)) in
      record {
        lowest = of_int_mono 1 _ one;
        at_least = of_int_mono _ _ low;
        at_most = of_int_mono _ _ high;
        ordered = of_int_mono _ _ both;
      }

  reconfigure-Band :
      (a : AdaptiveLimiter fl) (opts : List (AdaptiveOption fl)) → Band (reconfigure fl a opts)
  unfolding reconfigure
  reconfigure-Band a opts =
      let (one, low, high, both) = clamp_band (apply_options fl opts (current_config fl a)) in
      let (in_low, in_high) = banded a.limit _ _ (of_int_mono _ _ both) in
      record {
        lowest = of_int_mono 1 _ one;
        at_least = in_low;
        at_most = in_high;
        ordered = of_int_mono _ _ both;
      }

  recompute-Band :
      (a : AdaptiveLimiter fl) (rtt in_flight : ℕ) → Band a → Band (recompute fl a rtt in_flight)
  unfolding recompute fold_baseline next_limit
  recompute-Band a rtt in_flight v =
      let (low, high) = banded _ a.min_limit a.max_limit v.ordered in
      elim (Bool-cases (lt fl (of_int in_flight) (div a.limit (of_int 2)))) [
        | inl idle ↦ rw idle (record {
          lowest = v.lowest;
          at_least = v.at_least;
          at_most = v.at_most;
          ordered = v.ordered;
        })
        | inr loaded ↦
            rw loaded
              (record { lowest = v.lowest; at_least = low; at_most = high; ordered = v.ordered })
      ]

  recompute-in_flight :
      (a : AdaptiveLimiter fl) (rtt n : ℕ) → (recompute fl a rtt n).in_flight ≡ a.in_flight
  unfolding recompute fold_baseline
  recompute-in_flight a rtt n = ground arith

  -- The invariant, of which the band does not depend on the calls.
  record Banded (s : System fl) : Type 0 where
    counted : s.limiter.in_flight ≡ length s.calls
    band : Band s.limiter

  Step-Banded : {s t : System fl} → Step fl s t → Banded s → Banded t
  unfolding admit complete observe reconfigure
  Step-Banded (admits s now) v =
      elim (Bool-cases (leb (to_int s.limiter.limit) s.limiter.in_flight)) [
        | inl full ↦ rw full (record { counted = v.counted; band = v.band })
        | inr free ↦ rw free (record {
          counted = omega (arith, v.counted);
          band = record {
            lowest = v.band.lowest;
            at_least = v.band.at_least;
            at_most = v.band.at_most;
            ordered = v.band.ordered;
          };
        })
      ]
  Step-Banded (completes s xs ys start now e) v =
      let a = s.limiter in
      let rtt = now - start in
      record {
        counted =
            recompute-in_flight (record a { in_flight = a.in_flight - 1 }) rtt a.in_flight
            ∙ omega (arith, v.counted, ap length e, length-at xs ys start);
        band =
            recompute-Band (record a { in_flight = a.in_flight - 1 }) rtt a.in_flight
              (record {
                lowest = v.band.lowest;
                at_least = v.band.at_least;
                at_most = v.band.at_most;
                ordered = v.band.ordered;
              });
      }
  Step-Banded (reconfigures s opts) v = record {
    counted = v.counted;
    band = reconfigure-Band s.limiter opts;
  }

  Reach-Banded : {s : System fl} → Reach fl s → Banded s
  unfolding new_adaptive_limiter
  Reach-Banded (begin opts) = record { counted = refl; band = new-Band opts }
  Reach-Banded (later r st) = Step-Banded st (Reach-Banded r)

  -- Whatever calls are admitted and completed and however the limiter is reconfigured, the count in
  -- flight is that of the calls under way, the limit stays in its band, and the number of calls that
  -- it allows is never below one.
  pub Reach-InBand : {s : System fl} → Reach fl s → InBand fl s
  Reach-InBand r =
      let v = Reach-Banded r in
      record {
        counted = v.counted;
        at_least = v.band.at_least;
        at_most = v.band.at_most;
        ordered = v.band.ordered;
        useful = useful_limit _ _ v.band.lowest v.band.at_least;
      }
