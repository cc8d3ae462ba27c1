-- ===== src/Timeout.antt =====
-- timeout.go: DoTimeout, and the timeout of a policy. Times count from the start of the call. What the
-- function returns and when, and when the caller's context ends, are parameters. Where two of these fall
-- together Go's select takes any of them: the ties are parameters as well.
pub mod Ceiling
use r8e.Prelude.{
  ℕ, ◌+◌, Bool, true, false, not, ◌&&◌, ◌||◌, Option, none, some, ltb, ◌==◌, if◌then◌else◌,
}
use r8e.Prelude.Float.{Float}
use r8e.Errors.{Error, sentinel, err_timeout}
use r8e.Retry.{Result, ok, err}
use r8e.Estimator.{Estimator, compute, record_result}

-- Whether a first event is taken before a second one, which may not come at all.
unfoldable pub before : Bool → ℕ → ℕ → Bool
before tie a b = ltb a b || (a == b && tie)

unfoldable pub before_any : Bool → ℕ → Option ℕ → Bool
unfolding before
before_any tie a none = true
before_any tie a (some b) = before tie a b

pub record Surroundings {ℓ} (T : Type ℓ) : Type ℓ where
  pub returned : Result T
  pub takes : ℕ
  -- The error of the context before the call, then when the context ends and with which error.
  pub ended : Option Error
  pub cancelled_at : Option ℕ
  pub context_error : Error
  -- Whether the result is taken at the moment of the timeout, and of the context's end, and whether the
  -- context ends before its error is read at the moment of the timeout.
  pub over_timeout : Bool
  pub over_end : Bool
  pub ends_late : Bool

pub record Run {ℓ} (T : Type ℓ) : Type ℓ where
  pub result : Result T
  pub finished_at : ℕ
  pub on_timeout : Bool

unfoldable pub do_timeout {ℓ} : {T : Type ℓ} → Surroundings T → ℕ → Run T
unfolding before before_any
do_timeout env timeout = elim env.ended [
  | some e ↦ record { result = err e; finished_at = 0; on_timeout = false }
  | none ↦
      if before env.over_timeout env.takes timeout
        && before_any env.over_end env.takes env.cancelled_at
      then record { result = env.returned; finished_at = env.takes; on_timeout = false }
      else if before_any (not env.ends_late) timeout env.cancelled_at
      then record { result = err (sentinel err_timeout); finished_at = timeout; on_timeout = true }
      else record {
        result = err env.context_error;
        finished_at = elim env.cancelled_at [ some t ↦ t | none ↦ timeout ];
        on_timeout = false;
      }
]

module _ (fl : Float) where
  -- The middleware of an adaptive timeout, called at the time `start`.
  unfoldable pub adaptive_timeout_call {ℓ} :
      {T : Type ℓ} → Surroundings T → Estimator fl → ℕ → ℕ → Run T × Estimator fl
  unfolding do_timeout
  adaptive_timeout_call env e start ceiling =
      let (timeout, computed) = compute fl e start ceiling in
      let run = do_timeout env timeout in
      (run, record_result fl computed (start + run.finished_at) run.finished_at run.result)
