-- ===== src/Throttle.antt =====
-- throttle.go: the adaptive throttler. In its window `total` counts requests and `marked` accepts. The
-- value that the sampler draws is an argument.
pub mod History
pub mod Bounds
use r8e.Prelude.{
  ℕ, ◌+◌, ◌*◌, ◌^◌, Bool, true, false, not, ◌||◌, Option, none, some, List, [], ◌∷◌, ltb, leb, ◌==◌,
  if◌then◌else◌,
}
use r8e.Prelude.Float.{Float, lt, fmin}
use r8e.Errors.{Error, sentinel, err_throttled}
use r8e.Sheddability.{Sheddability, admits, sheddability_from_ctx}
use r8e.Window.{Buckets, no_buckets, bucket_nanos_for, epoch_of, observe, sums}

pub data Hook : Type 0 where
  on_throttled : Hook

module _ (fl : Float) where
  open fl use {Carrier, le, of_int, add, sub, mul, div}

  pub record ThrottleConfig : Type 0 where
    pub classifier : Option (Error → Bool)
    pub window : ℕ
    pub overload_ratio : Carrier
    pub max_rejection_rate : Carrier
    pub min_requests : ℕ

  pub data ThrottleOption : Type 0 where
    overload_ratio max_rejection_rate : Carrier → ThrottleOption
    throttle_window min_requests : ℕ → ThrottleOption
    throttle_classifier : (Error → Bool) → ThrottleOption

  pub record Throttler : Type 0 where
    pub classifier : Option (Error → Bool)
    pub window : ℕ
    pub bucket_nanos : ℕ
    pub min_requests : ℕ
    pub overload_ratio : Carrier
    pub max_rejection_rate : Carrier
    pub buckets : Buckets

  abbrev pub default_throttle_config : ThrottleConfig
  default_throttle_config = record {
    classifier = none;
    window = 10 * 10 ^ 9;
    overload_ratio = of_int 2;
    max_rejection_rate = div (of_int 9) (of_int 10);
    min_requests = 10;
  }

  apply_option : ThrottleOption → ThrottleConfig → ThrottleConfig
  apply_option (overload_ratio r) cfg = record cfg { overload_ratio = r }
  apply_option (max_rejection_rate r) cfg = record cfg { max_rejection_rate = r }
  apply_option (throttle_window d) cfg = record cfg { window = d }
  apply_option (min_requests n) cfg = record cfg { min_requests = n }
  apply_option (throttle_classifier f) cfg = record cfg { classifier = some f }

  apply_options : List ThrottleOption → ThrottleConfig → ThrottleConfig
  unfolding apply_option
  apply_options [] cfg = cfg
  apply_options (o ∷ os) cfg = apply_options os (apply_option o cfg)

  unfoldable pub clamp : ThrottleConfig → ThrottleConfig
  clamp c = record c {
    overload_ratio =
        if lt fl c.overload_ratio (of_int 1)
        then default_throttle_config.overload_ratio
        else c.overload_ratio;
    max_rejection_rate =
        if le c.max_rejection_rate (of_int 0) || lt fl (of_int 1) c.max_rejection_rate
        then default_throttle_config.max_rejection_rate
        else c.max_rejection_rate;
    window = if leb c.window 0 then default_throttle_config.window else c.window;
    min_requests =
        if ltb c.min_requests 1 then default_throttle_config.min_requests else c.min_requests;
  }

  -- The buckets are kept only while their width stays.
  unfoldable pub apply_config : Throttler → ThrottleConfig → Throttler
  apply_config t cfg =
      let new_bucket_nanos = bucket_nanos_for cfg.window in
      record {
        classifier = cfg.classifier;
        window = cfg.window;
        bucket_nanos = new_bucket_nanos;
        min_requests = cfg.min_requests;
        overload_ratio = cfg.overload_ratio;
        max_rejection_rate = cfg.max_rejection_rate;
        buckets = if new_bucket_nanos == t.bucket_nanos then t.buckets else no_buckets;
      }

  unfoldable pub current_config : Throttler → ThrottleConfig
  current_config t = record {
    classifier = t.classifier;
    window = t.window;
    overload_ratio = t.overload_ratio;
    max_rejection_rate = t.max_rejection_rate;
    min_requests = t.min_requests;
  }

  -- The throttler before its first configuration is the zero value.
  unfoldable pub new_throttler : List ThrottleOption → Throttler
  unfolding apply_options clamp apply_config
  new_throttler opts =
      apply_config
        (record {
          classifier = none;
          window = 0;
          bucket_nanos = 0;
          min_requests = 0;
          overload_ratio = of_int 0;
          max_rejection_rate = of_int 0;
          buckets = no_buckets;
        })
        (clamp (apply_options opts default_throttle_config))

  unfoldable pub reconfigure : Throttler → List ThrottleOption → Throttler
  unfolding apply_options clamp apply_config current_config
  reconfigure t opts = apply_config t (clamp (apply_options opts (current_config t)))

  -- rejectProbabilityLocked, given the sums of the window.
  unfoldable pub probability : Throttler → ℕ → ℕ → Carrier
  probability t requests accepts =
      let gap = sub (of_int requests) (mul t.overload_ratio (of_int accepts)) in
      if ltb requests t.min_requests
      then of_int 0
      else if le gap (of_int 0)
      then of_int 0
      else fmin fl (div gap (add (of_int requests) (of_int 1))) t.max_rejection_rate

  unfoldable pub reject_probability_locked : Throttler → ℕ → Carrier
  unfolding probability epoch_of
  reject_probability_locked t now =
      let (requests, accepts) = sums t.buckets (epoch_of t.bucket_nanos now) in
      probability t requests accepts

  unfoldable pub admit : Throttler → ℕ → Sheddability → Carrier → Throttler × Bool
  unfolding reject_probability_locked epoch_of
  admit t now shed sample =
      let prob = reject_probability_locked t now in
      (
        record t { buckets = observe t.buckets (epoch_of t.bucket_nanos now) 1 0 },
        admits fl shed prob sample,
      )

  unfoldable pub allow :
      Throttler → ℕ → Option Sheddability → Carrier → Throttler × Option Error × List Hook
  unfolding admit
  allow t now ctx sample =
      let (t', admitted) = admit t now (sheddability_from_ctx ctx) sample in
      if admitted then (t', none, []) else (t', some (sentinel err_throttled), on_throttled ∷ [])

  unfoldable pub is_reject : Throttler → Option Error → Bool
  is_reject t none = false
  is_reject t (some e) = elim t.classifier [ none ↦ true | some f ↦ f e ]

  unfoldable pub record_outcome : Throttler → ℕ → Option Error → Throttler
  unfolding is_reject epoch_of
  record_outcome t now e =
      if is_reject t e
      then t
      else record t { buckets = observe t.buckets (epoch_of t.bucket_nanos now) 0 1 }

  unfoldable pub throttling : Throttler → ℕ → Bool
  unfolding reject_probability_locked
  throttling t now = lt fl (of_int 0) (reject_probability_locked t now)
