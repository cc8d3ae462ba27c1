-- ===== src/RateLimiter/Aimd.antt =====
-- ratelimit.go: the AIMD controller of the refill rate. A classifier sees the outcome of a call, which
-- is an error or none.
pub mod Range
use r8e.Prelude.{
  ℕ, ◌+◌, ◌-◌, ◌^◌, Bool, true, false, not, ◌&&◌, ◌||◌, Option, none, some, List, [], ◌∷◌, ltb, leb,
  if◌then◌else◌,
}
use r8e.Prelude.Float.{Float, lt, fmin, fmax}
use r8e.Errors.{
  Error, sentinel, transient_error, permanent_error, retry_after_error, joined, err_rate_limited,
  retry_after_from_error,
}

abbrev is_some {ℓ} : {A : Type ℓ} → Option A → Bool
is_some none = false
is_some (some a) = true

-- errors.Is with the target ErrRateLimited.
is_rate_limited : Error → Bool
is_rate_limited (sentinel err_rate_limited) = true
is_rate_limited (transient_error e) = is_rate_limited e
is_rate_limited (permanent_error e) = is_rate_limited e
is_rate_limited (retry_after_error e d) = is_rate_limited e
is_rate_limited (joined a b) = is_rate_limited a || is_rate_limited b
is_rate_limited _ = false

unfoldable pub default_aimd_overload : Option Error → Bool
unfolding is_rate_limited
default_aimd_overload none = false
default_aimd_overload (some e) = is_rate_limited e || is_some (retry_after_from_error e)

module _ (fl : Float) where
  open fl use {Carrier, le, of_int, add, mul, div}

  -- Zero and none are what an option leaves unset.
  pub record AimdConfig : Type 0 where
    pub classifier : Option (Option Error → Bool)
    pub min_rate : Carrier
    pub max_rate : Carrier
    pub increase : Carrier
    pub backoff : Carrier
    pub interval : ℕ

  pub data AimdOption : Type 0 where
    aimd_min_rate aimd_max_rate aimd_backoff aimd_increase : Carrier → AimdOption
    aimd_interval : ℕ → AimdOption
    aimd_classifier : Option (Option Error → Bool) → AimdOption

  pub record AimdState : Type 0 where
    pub classifier : Option Error → Bool
    pub increase : Carrier
    pub backoff : Carrier
    pub min_rate : Carrier
    pub max_rate : Carrier
    pub base_rate : Carrier
    pub interval : ℕ
    pub last_adjust : ℕ

  unfoldable pub unset : AimdConfig
  unset = record {
    classifier = none;
    min_rate = of_int 0;
    max_rate = of_int 0;
    increase = of_int 0;
    backoff = of_int 0;
    interval = 0;
  }

  apply_aimd_option : AimdOption → AimdConfig → AimdConfig
  apply_aimd_option (aimd_min_rate r) cfg = record cfg { min_rate = r }
  apply_aimd_option (aimd_max_rate r) cfg = record cfg { max_rate = r }
  apply_aimd_option (aimd_backoff r) cfg = record cfg { backoff = r }
  apply_aimd_option (aimd_increase r) cfg = record cfg { increase = r }
  apply_aimd_option (aimd_interval d) cfg = record cfg { interval = d }
  apply_aimd_option (aimd_classifier f) cfg = record cfg { classifier = f }

  unfoldable pub apply_aimd_options : List AimdOption → AimdConfig → AimdConfig
  unfolding apply_aimd_option
  apply_aimd_options [] cfg = cfg
  apply_aimd_options (o ∷ os) cfg = apply_aimd_options os (apply_aimd_option o cfg)

  pub classifier_or_default : Option (Option Error → Bool) → Option Error → Bool
  unfolding default_aimd_overload
  classifier_or_default none e = default_aimd_overload e
  classifier_or_default (some f) e = f e

  unfoldable pub resolve : AimdConfig → Carrier → AimdConfig
  resolve c base =
      let max_rate = if le c.max_rate (of_int 0) then base else c.max_rate in
      let min_rate = if le c.min_rate (of_int 0) then div max_rate (of_int 10) else c.min_rate in
      record {
        classifier = c.classifier;
        min_rate = if lt fl max_rate min_rate then max_rate else min_rate;
        max_rate = max_rate;
        increase = if le c.increase (of_int 0) then div max_rate (of_int 20) else c.increase;
        backoff =
            if le c.backoff (of_int 0) || le (of_int 1) c.backoff
            then div (of_int 9) (of_int 10)
            else c.backoff;
        interval = if leb c.interval 0 then 10 ^ 9 else c.interval;
      }

  unfoldable pub new_aimd_state : AimdConfig → Carrier → ℕ → AimdState
  unfolding classifier_or_default
  new_aimd_state cfg base_rate now = record {
    classifier = classifier_or_default cfg.classifier;
    increase = cfg.increase;
    backoff = cfg.backoff;
    min_rate = cfg.min_rate;
    max_rate = cfg.max_rate;
    base_rate = base_rate;
    interval = cfg.interval;
    last_adjust = now;
  }

  -- The step of RecordOutcome.
  unfoldable pub step : AimdState → Bool → Carrier → Carrier
  step ctrl overload cur =
      if overload
      then fmax fl ctrl.min_rate (mul cur ctrl.backoff)
      else fmin fl ctrl.max_rate (add cur ctrl.increase)

  -- The new state and rate, and whether the rate changed.
  unfoldable pub adjust : AimdState → ℕ → Carrier → Bool → AimdState × Carrier × Bool
  unfolding step
  adjust ctrl now cur overload =
      let next = step ctrl overload cur in
      if ltb (now - ctrl.last_adjust) ctrl.interval
      then (ctrl, cur, false)
      else if le next cur && le cur next
      then (ctrl, cur, false)
      else (record ctrl { last_adjust = now }, next, true)

  unfoldable pub current_config_locked : AimdState → AimdConfig
  current_config_locked a = record {
    classifier = some a.classifier;
    min_rate = a.min_rate;
    max_rate = a.max_rate;
    increase = a.increase;
    backoff = a.backoff;
    interval = a.interval;
  }

  unfoldable pub reconfigure_aimd : AimdState → List AimdOption → AimdState
  unfolding current_config_locked apply_aimd_options resolve classifier_or_default
  reconfigure_aimd a opts =
      let cfg = resolve (apply_aimd_options opts (current_config_locked a)) a.base_rate in
      record a {
        classifier = classifier_or_default cfg.classifier;
        increase = cfg.increase;
        backoff = cfg.backoff;
        min_rate = cfg.min_rate;
        max_rate = cfg.max_rate;
        interval = cfg.interval;
      }
