-- ===== src/Slo.antt =====
-- slo.go: the SLO burn-rate governor. In its two windows `total` counts calls and `marked` failures.
-- The value that the sampler draws is an argument.
pub mod History
pub mod Bounds
use r8e.Prelude.{
  ℕ, ◌+◌, ◌*◌, ◌/◌, ◌^◌, Bool, true, false, not, ◌||◌, Option, none, some, List, [], ◌∷◌, ltb, leb,
  ◌==◌, if◌then◌else◌,
}
use r8e.Prelude.Float.{Float, lt, fmin, fmax}
use r8e.Errors.{Error, sentinel, err_slo_shed}
use r8e.Sheddability.{Sheddability, admits, sheddability_from_ctx}
use r8e.Window.{Buckets, no_buckets, bucket_nanos_for, epoch_of, observe, sums}

pub data Hook : Type 0 where
  on_slo_shed : Hook

pub record SloWindow : Type 0 where
  pub bucket_nanos : ℕ
  pub buckets : Buckets

-- The buckets are kept only while their width stays.
unfoldable pub resize_slo_window : SloWindow → ℕ → SloWindow
resize_slo_window w window =
    let nb = bucket_nanos_for window in
    if nb == w.bucket_nanos then w else record { bucket_nanos = nb; buckets = no_buckets }

unfoldable pub observe_window : SloWindow → ℕ → ℕ → SloWindow
unfolding epoch_of
observe_window w now failures = record w {
  buckets = observe w.buckets (epoch_of w.bucket_nanos now) 1 failures;
}

unfoldable pub window_sums : SloWindow → ℕ → ℕ × ℕ
unfolding epoch_of
window_sums w now = sums w.buckets (epoch_of w.bucket_nanos now)

module _ (fl : Float) where
  open fl use {Carrier, le, of_int, sub, div}

  pub record SloConfig : Type 0 where
    pub classifier : Option (Error → Bool)
    pub target : Carrier
    pub short_window : ℕ
    pub long_window : ℕ
    pub burn_threshold : Carrier
    pub max_shed_rate : Carrier
    pub min_requests : ℕ

  pub data SloOption : Type 0 where
    slo_long_window slo_short_window slo_min_requests : ℕ → SloOption
    burn_threshold max_shed_rate : Carrier → SloOption
    slo_classifier : (Error → Bool) → SloOption

  pub record SloGovernor : Type 0 where
    pub classifier : Option (Error → Bool)
    pub short_window : ℕ
    pub long_window : ℕ
    pub min_requests : ℕ
    pub target : Carrier
    pub burn_threshold : Carrier
    pub max_shed_rate : Carrier
    pub short : SloWindow
    pub long : SloWindow

  abbrev default_slo_config : Carrier → SloConfig
  default_slo_config target = record {
    classifier = none;
    target = target;
    short_window = 5 * 10 ^ 9;
    long_window = 60 * 10 ^ 9;
    burn_threshold = of_int 2;
    max_shed_rate = div (of_int 9) (of_int 10);
    min_requests = 20;
  }

  abbrev default_slo_target : Carrier
  default_slo_target = div (of_int 99) (of_int 100)

  apply_option : SloOption → SloConfig → SloConfig
  apply_option (slo_long_window d) cfg = record cfg { long_window = d }
  apply_option (slo_short_window d) cfg = record cfg { short_window = d }
  apply_option (burn_threshold r) cfg = record cfg { burn_threshold = r }
  apply_option (max_shed_rate r) cfg = record cfg { max_shed_rate = r }
  apply_option (slo_min_requests n) cfg = record cfg { min_requests = n }
  apply_option (slo_classifier f) cfg = record cfg { classifier = some f }

  apply_options : List SloOption → SloConfig → SloConfig
  unfolding apply_option
  apply_options [] cfg = cfg
  apply_options (o ∷ os) cfg = apply_options os (apply_option o cfg)

  -- The short window of a configuration whose long window is set.
  clamp_short : ℕ → ℕ → ℕ
  clamp_short short long =
      let derived = long / 12 in
      if leb short 0 || leb long short then (if leb derived 0 then 1 else derived) else short

  unfoldable pub clamp : SloConfig → SloConfig
  unfolding clamp_short
  clamp c =
      let default = default_slo_config c.target in
      let long = if leb c.long_window 0 then default.long_window else c.long_window in
      record c {
        target =
            if le c.target (of_int 0) || le (of_int 1) c.target
            then default_slo_target
            else c.target;
        long_window = long;
        short_window = clamp_short c.short_window long;
        burn_threshold =
            if le c.burn_threshold (of_int 0) then default.burn_threshold else c.burn_threshold;
        max_shed_rate =
            if le c.max_shed_rate (of_int 0) || lt fl (of_int 1) c.max_shed_rate
            then default.max_shed_rate
            else c.max_shed_rate;
        min_requests = if ltb c.min_requests 1 then default.min_requests else c.min_requests;
      }

  unfoldable pub apply_config : SloGovernor → SloConfig → SloGovernor
  unfolding resize_slo_window
  apply_config g cfg = record {
    classifier = cfg.classifier;
    short_window = cfg.short_window;
    long_window = cfg.long_window;
    min_requests = cfg.min_requests;
    target = cfg.target;
    burn_threshold = cfg.burn_threshold;
    max_shed_rate = cfg.max_shed_rate;
    short = resize_slo_window g.short cfg.short_window;
    long = resize_slo_window g.long cfg.long_window;
  }

  unfoldable pub current_config : SloGovernor → SloConfig
  current_config g = record {
    classifier = g.classifier;
    target = g.target;
    short_window = g.short_window;
    long_window = g.long_window;
    burn_threshold = g.burn_threshold;
    max_shed_rate = g.max_shed_rate;
    min_requests = g.min_requests;
  }

  -- The governor before its first configuration is the zero value.
  unfoldable pub new_slo_governor : Carrier → List SloOption → SloGovernor
  unfolding apply_options clamp apply_config
  new_slo_governor target opts =
      let unset : SloWindow = record { bucket_nanos = 0; buckets = no_buckets } in
      apply_config
        (record {
          classifier = none;
          short_window = 0;
          long_window = 0;
          min_requests = 0;
          target = of_int 0;
          burn_threshold = of_int 0;
          max_shed_rate = of_int 0;
          short = unset;
          long = unset;
        })
        (clamp (apply_options opts (default_slo_config target)))

  unfoldable pub reconfigure : SloGovernor → Carrier → List SloOption → SloGovernor
  unfolding apply_options clamp apply_config current_config
  reconfigure g target opts =
      apply_config g (clamp (apply_options opts (record (current_config g) { target = target })))

  -- burnRateLocked, given the sums of the window.
  unfoldable pub burn_rate_of : SloGovernor → ℕ × ℕ → Carrier × ℕ
  burn_rate_of g (total, failures) =
      let error_rate = div (of_int failures) (of_int total) in
      let error_budget = sub (of_int 1) g.target in
      if total == 0 then (of_int 0, 0) else (div error_rate error_budget, total)

  unfoldable pub shed_fraction : Carrier → Carrier → Carrier → Carrier
  shed_fraction burn_rate threshold max_shed =
      if le threshold (of_int 0) || le burn_rate threshold
      then of_int 0
      else fmax fl (of_int 0) (fmin fl (sub (of_int 1) (div threshold burn_rate)) max_shed)

  -- shedProbabilityLocked, given the sums of the short window and those of the long one.
  unfoldable pub shed_probability_of : SloGovernor → ℕ × ℕ → ℕ × ℕ → Carrier
  unfolding burn_rate_of shed_fraction
  shed_probability_of g short long =
      let (short_burn, short_samples) = burn_rate_of g short in
      let (long_burn, long_samples) = burn_rate_of g long in
      if ltb short_samples g.min_requests
      then of_int 0
      else if lt fl short_burn g.burn_threshold || lt fl long_burn g.burn_threshold
      then of_int 0
      else shed_fraction short_burn g.burn_threshold g.max_shed_rate

  unfoldable pub shed_probability_locked : SloGovernor → ℕ → Carrier
  unfolding shed_probability_of window_sums
  shed_probability_locked g now =
      shed_probability_of g (window_sums g.short now) (window_sums g.long now)

  unfoldable pub burn_rate : SloGovernor → ℕ → Carrier
  unfolding burn_rate_of window_sums
  burn_rate g now = (burn_rate_of g (window_sums g.long now)).0

  unfoldable pub admit : SloGovernor → ℕ → Sheddability → Carrier → Bool
  unfolding shed_probability_locked
  admit g now shed sample = admits fl shed (shed_probability_locked g now) sample

  unfoldable pub allow : SloGovernor → ℕ → Option Sheddability → Carrier → Option Error × List Hook
  unfolding admit
  allow g now ctx sample =
      if admit g now (sheddability_from_ctx ctx) sample
      then (none, [])
      else (some (sentinel err_slo_shed), on_slo_shed ∷ [])

  unfoldable pub is_burn : SloGovernor → Option Error → Bool
  is_burn g none = false
  is_burn g (some e) = elim g.classifier [ none ↦ true | some f ↦ f e ]

  unfoldable pub record_outcome : SloGovernor → ℕ → Option Error → SloGovernor
  unfolding is_burn observe_window
  record_outcome g now e =
      let failures = if is_burn g e then 1 else 0 in
      record g {
        short = observe_window g.short now failures;
        long = observe_window g.long now failures;
      }

  unfoldable pub shedding : SloGovernor → ℕ → Bool
  unfolding shed_probability_locked
  shedding g now = lt fl (of_int 0) (shed_probability_locked g now)
