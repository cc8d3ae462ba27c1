-- ===== src/Retry.antt =====
-- retry.go: DoRetry. What the loop meets of its surroundings is a parameter: what each call of `fn`
-- returns, the strategy's delays, the draws of the jitter, the answers of the concurrency budget, what
-- is left of the time budget, and whether the timer or the context ends a wait. A trace lists what the
-- loop does. The retry budget is taken as used by this call only while the call lasts: what other callers
-- charge to or credit a shared budget in the meantime is not modelled. The context that a per-attempt timeout derives only reaches `fn`.
pub mod Cases
pub mod Attempts
pub mod Success
pub mod Permits
pub mod Persistence
pub mod Waits
use r8e.Prelude.{
  ℕ, zero, suc, ◌+◌, ◌-◌, Bool, true, false, not, ◌&&◌, ◌||◌, Option, none, some, List, [], ◌∷◌,
  ◌++◌, leb, ltb, max, if◌then◌else◌,
}
use r8e.Prelude.Float.{Float}
use r8e.Errors.{
  Error, sentinel, joined, err_retries_exhausted, err_time_budget_exceeded,
  err_concurrency_budget_exceeded, is_permanent, retry_after_from_error, jittered_retry_after,
}
use r8e.RetryBudget.{RetryBudget, record_success, record_failure, allow_retry}

pub data Result {ℓ} (T : Type ℓ) : Type ℓ where
  ok : T → Result T
  err : Error → Result T

pub data Event : Type 0 where
  acquires_permit releases_permit calls : ℕ → Event
  sleeps : ℕ → Event
  on_retry : ℕ → Error → Event
  on_concurrency_budget_exceeded on_retry_budget_exceeded on_time_budget_exceeded : Event

pub record Surroundings {ℓ} (T : Type ℓ) : Type ℓ where
  pub fn : ℕ → Result T
  pub strategy : ℕ → ℕ
  pub draw : ℕ → ℕ
  -- Whether there is a concurrency budget, and its answers.
  pub gated : Bool
  pub permitted : ℕ → Bool
  pub remaining : ℕ → Option ℕ
  pub timer_fires : ℕ → Bool
  pub context_error : Error
  pub retry_if : Option (Error → Bool)
  pub max_delay : ℕ

-- The strategy's delay, a Retry-After in its place, and the cap on either.
unfoldable pub next_backoff_delay : ℕ → ℕ → ℕ → Error → ℕ
next_backoff_delay strategy_delay draw max_delay e =
    let delay : ℕ = elim (retry_after_from_error e) [
      | none ↦ strategy_delay
      | some after ↦ jittered_retry_after after draw
    ] in
    if ltb 0 max_delay && ltb max_delay delay then max_delay else delay

abbrev pub refuses : Option (Error → Bool) → Error → Bool
refuses none e = false
refuses (some f) e = not (f e)

abbrev pub outlasts : ℕ → Option ℕ → Bool
outlasts delay none = false
outlasts delay (some left) = leb left delay

module _ {ℓ} {T : Type ℓ} (fl : Float) (env : Surroundings T) where
  open env use {fn, strategy, draw, gated, permitted, remaining, timer_fires, max_delay}

  pub record Run : Type ℓ where
    pub result : Result T
    pub budget : List (RetryBudget fl)
    pub trace : List Event

  unfoldable pub stop : Result T → List (RetryBudget fl) → List Event → Run
  stop result budget trace = record { result = result; budget = budget; trace = trace }

  unfoldable pub prepend : List Event → Run → Run
  prepend events r = record r { trace = events ++ r.trace }

  -- runRetryAttempt: a retry gives its permit back when `fn` returns.
  called : ℕ → List Event
  called attempt =
      if gated && ltb 0 attempt
      then acquires_permit attempt ∷ calls attempt ∷ releases_permit attempt ∷ []
      else calls attempt ∷ []

  unfoldable pub denied : ℕ → Bool
  denied attempt = ltb 0 attempt && (gated && not (permitted attempt))

  unfoldable pub delay_after : ℕ → Error → ℕ
  unfolding next_backoff_delay
  delay_after attempt e = next_backoff_delay (strategy attempt) (draw attempt) max_delay e

  -- The wait before the next attempt; `next` is the rest of the loop.
  unfoldable pub wait : ℕ → Error → List (RetryBudget fl) → Run → Run
  unfolding stop prepend delay_after
  wait attempt e budget next =
      let waiting = on_retry (attempt + 1) e ∷ sleeps (delay_after attempt e) ∷ [] in
      if timer_fires attempt
      then prepend waiting next
      else stop (err env.context_error) budget waiting

  -- After a failure that may be retried and was charged; `left` attempts remain.
  unfoldable pub after_failure : ℕ → ℕ → Error → List (RetryBudget fl) → Run → Run
  unfolding stop wait delay_after
  after_failure left attempt e budget next =
      if leb left 0
      then stop (err (joined (sentinel err_retries_exhausted) e)) budget []
      else if not (allow_retry fl budget)
      then stop (err e) budget (on_retry_budget_exceeded ∷ [])
      else if outlasts (delay_after attempt e) (remaining attempt)
      then stop (err (joined (sentinel err_time_budget_exceeded) e)) budget
          (on_time_budget_exceeded ∷ [])
      else wait attempt e budget next

  -- A failure that stops the loop at once.
  unfoldable pub final : Error → Bool
  unfolding is_permanent
  final e = is_permanent (some e) || refuses env.retry_if e

  unfoldable pub settle : ℕ → ℕ → Result T → List (RetryBudget fl) → (Error → Run) → Run
  unfolding stop after_failure
  settle left attempt (ok v) budget next = stop (ok v) (record_success fl budget) []
  settle left attempt (err e) budget next =
      if final e
      then stop (err e) budget []
      else after_failure left attempt e (record_failure fl budget) (next e)

  -- `left` attempts remain, the next is number `attempt`; `last` is the error of the one before.
  retry_loop : ℕ → ℕ → List (RetryBudget fl) → Error → Run
  unfolding stop prepend called denied settle
  retry_loop zero attempt budget last =
      stop (err (joined (sentinel err_retries_exhausted) last)) budget []
  retry_loop (suc left) attempt budget last =
      let next = λ (e : Error). retry_loop left (suc attempt) (record_failure fl budget) e in
      if denied attempt
      then stop (err (joined (sentinel err_concurrency_budget_exceeded) last)) budget
          (on_concurrency_budget_exceeded ∷ [])
      else prepend (called attempt) (settle left attempt (fn attempt) budget next)

  -- Before the first attempt there is no error yet, and none is read.
  unfoldable pub do_retry : ℕ → List (RetryBudget fl) → Run
  unfolding retry_loop
  do_retry max_attempts budget =
      retry_loop (max max_attempts 1) 0 budget (sentinel err_retries_exhausted)
