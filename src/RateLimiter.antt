-- ===== src/RateLimiter.antt =====
-- ratelimit.go: the token bucket. Tokens are counted in units of a billionth; times are nanoseconds.
-- Each loop around a compare-and-swap is one update of the cell it writes, computed from the value that
-- it replaces: `claim`, `deposit`, `try_acquire` and `clamp_tokens` are these updates.
pub mod Aimd
pub mod System
pub mod Adaptation
use r8e.Prelude.{
  ℕ, ◌+◌, ◌-◌, ◌*◌, ◌^◌, min, Bool, true, false, not, Option, none, some, List, [], ◌∷◌, ltb, leb,
  if◌then◌else◌,
}
use r8e.Prelude.Float.{Float}
use r8e.Errors.{Error, sentinel, err_rate_limited}
use Aimd.{
  AimdConfig, AimdState, AimdOption, apply_aimd_options, unset, resolve, new_aimd_state, adjust,
  reconfigure_aimd,
}

pub data Hook (Carrier : Type 0) : Type 0 where
  on_rate_limited : Hook Carrier
  on_rate_adapted : Carrier → Hook Carrier

-- fixedPointScale
abbrev pub scale : ℕ
scale = 10 ^ 9

module _ (fl : Float) where
  open fl use {Carrier, le, of_int, to_int, mul}

  pub data RateLimitOption : Type 0 where
    rate_limit_blocking : RateLimitOption
    aimd : List (AimdOption fl) → RateLimitOption

  pub record RateLimitConfig : Type 0 where
    pub aimd : Option (AimdConfig fl)
    pub blocking : Bool

  pub record RateLimiter : Type 0 where
    pub blocking : Bool
    pub aimd : Option (AimdState fl)
    pub rate : Carrier
    pub capacity : ℕ
    pub tokens : ℕ
    pub last_nano : ℕ

  apply_option : RateLimitOption → RateLimitConfig → RateLimitConfig
  apply_option rate_limit_blocking cfg = record cfg { blocking = true }
  apply_option (aimd opts) cfg = record cfg { aimd = some (apply_aimd_options fl opts (unset fl)) }

  apply_options : List RateLimitOption → RateLimitConfig → RateLimitConfig
  unfolding apply_option
  apply_options [] cfg = cfg
  apply_options (o ∷ os) cfg = apply_options os (apply_option o cfg)

  unfoldable pub capacity_of : Carrier → ℕ
  capacity_of rate = to_int (mul rate (of_int scale))

  aimd_state_for : Option (AimdConfig fl) → Carrier → ℕ → Option (AimdState fl)
  aimd_state_for none rate now = none
  aimd_state_for (some c) rate now = some (new_aimd_state fl (resolve fl c rate) rate now)

  unfoldable pub new_rate_limiter : Carrier → ℕ → List RateLimitOption → RateLimiter
  unfolding apply_options capacity_of aimd_state_for
  new_rate_limiter rate now opts =
      let cfg = apply_options opts (record { aimd = none; blocking = false }) in
      record {
        blocking = cfg.blocking;
        aimd = aimd_state_for cfg.aimd rate now;
        rate = rate;
        capacity = capacity_of rate;
        tokens = capacity_of rate;
        last_nano = now;
      }

  unfoldable pub clamp_tokens : RateLimiter → ℕ → RateLimiter
  clamp_tokens rl new_capacity =
      if leb rl.tokens new_capacity then rl else record rl { tokens = new_capacity }

  unfoldable pub store_rate : RateLimiter → Carrier → RateLimiter
  unfolding capacity_of clamp_tokens
  store_rate rl rate =
      clamp_tokens (record rl { rate = rate; capacity = capacity_of rate }) (capacity_of rate)

  -- The claim of the time since the last refill, if any has passed.
  unfoldable pub claim : RateLimiter → ℕ → Option (RateLimiter × ℕ)
  claim rl now =
      if leb now rl.last_nano
      then none
      else some (record rl { last_nano = now }, now - rl.last_nano)

  unfoldable pub add_tokens : Carrier → ℕ → ℕ
  add_tokens rate elapsed = to_int (mul (of_int elapsed) rate)

  unfoldable pub deposit : RateLimiter → ℕ → ℕ → RateLimiter
  deposit rl added capacity =
      let new_tokens = rl.tokens + added in
      record rl { tokens = if ltb capacity new_tokens then capacity else new_tokens }

  -- The rest of refill after a claim.
  credit : RateLimiter → ℕ → RateLimiter
  unfolding add_tokens deposit
  credit rl elapsed =
      let added = add_tokens rl.rate elapsed in
      if leb added 0 then rl else deposit rl added rl.capacity

  unfoldable pub refill : RateLimiter → ℕ → RateLimiter
  unfolding claim credit
  refill rl now = elim (claim rl now) [ none ↦ rl | some (rl', elapsed) ↦ credit rl' elapsed ]

  unfoldable pub try_acquire : RateLimiter → RateLimiter × Bool
  try_acquire rl =
      if ltb rl.tokens scale then (rl, false) else (record rl { tokens = rl.tokens - scale }, true)

  -- What ends a round of the blocking loop: the timer, at a time, or the context.
  pub data Wait : Type 0 where
    fires : ℕ → Wait
    ends : Error → Wait

  -- Allow returns nil or an error, or is still in its loop when the waits are over.
  pub data Outcome : Type 0 where
    admitted : Outcome
    refused : Error → List (Hook Carrier) → Outcome
    waiting : Outcome

  unfoldable pub wait_loop : RateLimiter → List Wait → RateLimiter × Outcome
  unfolding refill try_acquire
  wait_loop rl [] = (rl, waiting)
  wait_loop rl (ends e ∷ waits) = (rl, refused e [])
  wait_loop rl (fires now ∷ waits) =
      let (rl', got) = try_acquire (refill rl now) in
      let rest = wait_loop rl' waits in if got then (rl', admitted) else rest

  unfoldable pub allow : RateLimiter → ℕ → List Wait → RateLimiter × Outcome
  unfolding refill try_acquire wait_loop
  allow rl now waits =
      let (rl', got) = try_acquire (refill rl now) in
      if got
      then (rl', admitted)
      else if not rl'.blocking
      then (rl', refused (sentinel err_rate_limited) (on_rate_limited ∷ []))
      else wait_loop rl' waits

  unfoldable pub saturated : RateLimiter → ℕ → RateLimiter × Bool
  unfolding refill
  saturated rl now = let rl' = refill rl now in (rl', ltb rl'.tokens scale)

  unfoldable pub reconfigure : RateLimiter → Carrier → RateLimiter
  unfolding store_rate
  reconfigure rl rate = store_rate rl rate

  unfoldable pub record_outcome : RateLimiter → ℕ → Option Error → RateLimiter × List (Hook Carrier)
  unfolding store_rate adjust
  record_outcome rl now e = elim rl.aimd [
    | none ↦ (rl, [])
    | some ctrl ↦
        let (ctrl', rate, changed) = adjust fl ctrl now rl.rate (ctrl.classifier e) in
        if changed
        then (store_rate (record rl { aimd = some ctrl' }) rate, on_rate_adapted rate ∷ [])
        else (rl, [])
  ]

  -- Whether there is an AIMD controller to reconfigure, and the limiter.
  unfoldable pub reconfigure_limiter_aimd : RateLimiter → List (AimdOption fl) → Option RateLimiter
  reconfigure_limiter_aimd rl opts = elim rl.aimd [
    | none ↦ none
    | some ctrl ↦ some (record rl { aimd = some (reconfigure_aimd fl ctrl opts) })
  ]
