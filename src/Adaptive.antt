-- ===== src/Adaptive.antt =====
-- adaptive.go: the adaptive concurrency limiter. What its mutex guards is one function; a call under
-- way is known by the time of its admission.
pub mod Band
use r8e.Prelude.{
  ℕ, ◌+◌, ◌-◌, Bool, true, false, not, Option, none, some, List, [], ◌∷◌, min, max, ltb, leb, ◌==◌,
  if◌then◌else◌,
}
use r8e.Prelude.Float.{Float, lt, fmin, fmax}
use r8e.Errors.{Error, sentinel, err_concurrency_limited}
use r8e.Policy.Options.{AdaptiveOption, initial_limit, min_limit, max_limit, rtt_tolerance}

pub data Hook : Type 0 where
  on_concurrency_rejected : Hook
  on_concurrency_limit_changed : ℕ → Hook

module _ (fl : Float) where
  open fl use {Carrier, le, of_int, to_int, add, sub, mul, div}

  pub record AdaptiveConfig : Type 0 where
    pub initial_limit : ℕ
    pub min_limit : ℕ
    pub max_limit : ℕ
    pub tolerance : Carrier

  pub record AdaptiveLimiter : Type 0 where
    pub limit : Carrier
    pub long_rtt : Carrier
    pub min_limit : Carrier
    pub max_limit : Carrier
    pub tolerance : Carrier
    pub samples : Carrier
    pub in_flight : ℕ

  abbrev pub default_rtt_tolerance : Carrier
  default_rtt_tolerance = div (of_int 3) (of_int 2)

  apply_option : AdaptiveOption fl → AdaptiveConfig → AdaptiveConfig
  apply_option (initial_limit n) cfg = record cfg { initial_limit = n }
  apply_option (min_limit n) cfg = record cfg { min_limit = n }
  apply_option (max_limit n) cfg = record cfg { max_limit = n }
  apply_option (rtt_tolerance f) cfg = record cfg { tolerance = f }

  unfoldable pub apply_options : List (AdaptiveOption fl) → AdaptiveConfig → AdaptiveConfig
  unfolding apply_option
  apply_options [] cfg = cfg
  apply_options (o ∷ os) cfg = apply_options os (apply_option o cfg)

  unfoldable pub clamp : AdaptiveConfig → AdaptiveConfig
  clamp c =
      let low = if ltb c.min_limit 1 then 1 else c.min_limit in
      let high = if ltb c.max_limit low then low else c.max_limit in
      record {
        initial_limit = min (max c.initial_limit low) high;
        min_limit = low;
        max_limit = high;
        tolerance = if lt fl c.tolerance (of_int 1) then default_rtt_tolerance else c.tolerance;
      }

  abbrev pub initial_config : AdaptiveConfig
  initial_config = record {
    initial_limit = 20;
    min_limit = 1;
    max_limit = 200;
    tolerance = default_rtt_tolerance;
  }

  unfoldable pub new_adaptive_limiter : List (AdaptiveOption fl) → AdaptiveLimiter
  unfolding apply_options clamp
  new_adaptive_limiter opts =
      let cfg = clamp (apply_options opts initial_config) in
      record {
        limit = of_int cfg.initial_limit;
        long_rtt = of_int 0;
        min_limit = of_int cfg.min_limit;
        max_limit = of_int cfg.max_limit;
        tolerance = cfg.tolerance;
        samples = of_int 0;
        in_flight = 0;
      }

  -- The time of admission, if a slot is free.
  unfoldable pub admit : AdaptiveLimiter → ℕ → AdaptiveLimiter × Option ℕ
  admit a now =
      if leb (to_int a.limit) a.in_flight
      then (a, none)
      else (record a { in_flight = a.in_flight + 1 }, some now)

  -- Acquire, which gives the time of admission to its completion function.
  unfoldable pub acquire : AdaptiveLimiter → ℕ → AdaptiveLimiter × Option Error × List Hook
  unfolding admit
  acquire a now =
      let (a', start) = admit a now in
      elim start [
        | none ↦ (a', some (sentinel err_concurrency_limited), on_concurrency_rejected ∷ [])
        | some t ↦ (a', none, [])
      ]

  unfoldable pub fold_baseline : AdaptiveLimiter → Carrier → AdaptiveLimiter
  fold_baseline a sample =
      let samples = add a.samples (of_int 1) in
      let window = if lt fl samples (of_int 600) then samples else of_int 600 in
      let long_rtt = add a.long_rtt (div (sub sample a.long_rtt) window) in
      record a {
        samples = samples;
        long_rtt =
            if lt fl (of_int 2) (div long_rtt sample)
            then mul long_rtt (div (of_int 95) (of_int 100))
            else long_rtt;
      }

  -- The limit after one step of the controller that is loaded.
  unfoldable pub next_limit : AdaptiveLimiter → Carrier → Carrier
  next_limit a short =
      let gradient =
        fmax fl (div (of_int 1) (of_int 2))
          (fmin fl (of_int 1) (div (mul a.tolerance a.long_rtt) short)) in
      let target = add (mul a.limit gradient) (of_int 4) in
      let smoothed =
        add (mul a.limit (div (of_int 8) (of_int 10))) (mul target (div (of_int 2) (of_int 10))) in
      fmin fl (fmax fl smoothed a.min_limit) a.max_limit

  unfoldable pub recompute : AdaptiveLimiter → ℕ → ℕ → AdaptiveLimiter
  unfolding fold_baseline next_limit
  recompute a rtt in_flight =
      let short = fmax fl (of_int rtt) (of_int 1) in
      let folded = fold_baseline a short in
      if lt fl (of_int in_flight) (div folded.limit (of_int 2))
      then folded
      else record folded { limit = next_limit folded short }

  -- The new limit, and whether it moved.
  unfoldable pub observe : AdaptiveLimiter → ℕ → AdaptiveLimiter × ℕ × Bool
  unfolding recompute
  observe a rtt =
      let a' = recompute (record a { in_flight = a.in_flight - 1 }) rtt a.in_flight in
      (a', to_int a'.limit, not (to_int a'.limit == to_int a.limit))

  unfoldable pub complete : AdaptiveLimiter → ℕ → ℕ → AdaptiveLimiter × List Hook
  unfolding observe
  complete a start now =
      let (a', limit, changed) = observe a (now - start) in
      (a', if changed then on_concurrency_limit_changed limit ∷ [] else [])

  abbrev pub current_config : AdaptiveLimiter → AdaptiveConfig
  current_config a = record {
    initial_limit = to_int a.limit;
    min_limit = to_int a.min_limit;
    max_limit = to_int a.max_limit;
    tolerance = a.tolerance;
  }

  unfoldable pub reconfigure : AdaptiveLimiter → List (AdaptiveOption fl) → AdaptiveLimiter
  unfolding apply_options clamp
  reconfigure a opts =
      let cfg = clamp (apply_options opts (current_config a)) in
      record a {
        min_limit = of_int cfg.min_limit;
        max_limit = of_int cfg.max_limit;
        tolerance = cfg.tolerance;
        limit = fmin fl (fmax fl a.limit (of_int cfg.min_limit)) (of_int cfg.max_limit);
      }

  unfoldable pub limit_of : AdaptiveLimiter → ℕ
  limit_of a = to_int a.limit

  unfoldable pub saturated : AdaptiveLimiter → Bool
  saturated a = leb (to_int a.limit) a.in_flight
