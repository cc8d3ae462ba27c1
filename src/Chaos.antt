-- ===== src/Chaos.antt =====
-- chaos.go: the injection of faults, latencies, outcomes and behaviors. What a context is, is a parameter,
-- and so are the draws of the sampler and, for each strategy, the error that ends its wait early, if any.
pub mod Injections
use r8e.Prelude.{
  ℕ, zero, suc, ◌+◌, Bool, true, false, not, ◌&&◌, ◌||◌, Option, none, some, List, [], ◌∷◌, ltb,
  leb, if◌then◌else◌,
}
use r8e.Prelude.Float.{Float, lt, fmin, fmax}
use r8e.Errors.{Error, sentinel, err_chaos_injected}
use r8e.Breaker.Options.{clamp_unit_interval}
use r8e.Retry.{Result, ok, err}
use r8e.Recover.{Completion, returned, panicked}

pub data ChaosKind : Type 0 where
  kind_fault kind_latency kind_outcome kind_behavior : ChaosKind

module _ (fl : Float) (Context T : Type 0) where
  open fl use {Carrier, le, of_int}

  -- A strategy's own fields, by its kind. A behavior may panic, with the value that is given.
  pub data Injection : Type 0 where
    fault : Error → Injection
    latency : ℕ → Injection
    outcome : Option (Context → Completion T) → Injection
    behavior : Option (Context → Option ℕ) → Injection

  pub record ChaosStrategy : Type 0 where
    pub injection : Injection
    pub enabled : Option (Context → Bool)
    pub prob : Carrier

  unfoldable pub kind_of : Injection → ChaosKind
  kind_of (fault e) = kind_fault
  kind_of (latency d) = kind_latency
  kind_of (outcome f) = kind_outcome
  kind_of (behavior f) = kind_behavior

  -- newStrategy; of the options, which are all ChaosEnabled, the last one counts.
  unfoldable pub apply_enabled :
      List (Context → Bool) → Option (Context → Bool) → Option (Context → Bool)
  apply_enabled [] current = current
  apply_enabled (pred ∷ opts) current = apply_enabled opts (some pred)

  unfoldable pub new_strategy : Injection → Carrier → List (Context → Bool) → ChaosStrategy
  unfolding apply_enabled
  new_strategy injection prob opts = record {
    injection = injection;
    enabled = apply_enabled opts none;
    prob = clamp_unit_interval fl prob;
  }

  unfoldable pub chaos_fault : Carrier → Option Error → List (Context → Bool) → ChaosStrategy
  unfolding new_strategy
  chaos_fault prob none opts = new_strategy (fault (sentinel err_chaos_injected)) prob opts
  chaos_fault prob (some e) opts = new_strategy (fault e) prob opts

  unfoldable pub chaos_latency : Carrier → ℕ → List (Context → Bool) → ChaosStrategy
  unfolding new_strategy
  chaos_latency prob delay opts = new_strategy (latency delay) prob opts

  unfoldable pub chaos_outcome :
      Carrier → Option (Context → Completion T) → List (Context → Bool) → ChaosStrategy
  unfolding new_strategy
  chaos_outcome prob fn opts = new_strategy (outcome fn) prob opts

  unfoldable pub chaos_behavior :
      Carrier → Option (Context → Option ℕ) → List (Context → Bool) → ChaosStrategy
  unfolding new_strategy
  chaos_behavior prob fn opts = new_strategy (behavior fn) prob opts

  unfoldable pub is_inert : Injection → Bool
  is_inert (outcome none) = true
  is_inert (behavior none) = true
  is_inert _ = false

  unfoldable pub is_enabled : Option (Context → Bool) → Context → Bool
  is_enabled none ctx = true
  is_enabled (some pred) ctx = pred ctx

  -- Whether a strategy fires on the call, and whether it consults the sampler.
  unfoldable pub injects : ChaosStrategy → Context → Carrier → Bool × Bool
  unfolding is_inert is_enabled
  injects s ctx draw =
      if is_inert s.injection || not (is_enabled s.enabled ctx)
      then (false, false)
      else if le s.prob (of_int 0)
      then (false, false)
      else if le (of_int 1) s.prob
      then (true, false)
      else (lt fl draw s.prob, true)

  -- wait: the context's error, if it comes before the timer.
  unfoldable pub wait : ℕ → Option Error → Option Error
  wait d interrupted = if leb d 0 then none else interrupted

  -- How the call goes on after an injection: it is over, or the next strategies are looked at.
  unfoldable pub inject : Injection → Context → Option Error → Option (Completion T)
  unfolding wait
  inject (fault e) ctx interrupted = some (returned (err e))
  inject (outcome none) ctx interrupted = none
  inject (outcome (some fn)) ctx interrupted = some (fn ctx)
  inject (latency d) ctx interrupted = elim (wait d interrupted) [
    | some e ↦ some (returned (err e))
    | none ↦ none
  ]
  inject (behavior none) ctx interrupted = none
  inject (behavior (some fn)) ctx interrupted = elim (fn ctx) [
    | some value ↦ some (panicked value)
    | none ↦ none
  ]

  pub record Run : Type 0 where
    pub completion : Completion T
    pub injected : List ChaosKind

module _ (fl : Float) (Context T : Type 0) (sampler : ℕ → fl.Carrier)
    (interrupted : ℕ → Option Error) (ctx : Context) (next : Completion T) where
  -- The strategies from number `i` on, when `drawn` draws have been made.
  unfoldable pub run_from : List (ChaosStrategy fl Context T) → ℕ → ℕ → Run fl Context T
  unfolding injects inject kind_of
  run_from [] i drawn = record { completion = next; injected = [] }
  run_from (s ∷ rest) i drawn =
      let (fires, draws) = injects fl Context T s ctx (sampler drawn) in
      let tail = run_from rest (i + 1) (if draws then drawn + 1 else drawn) in
      if not fires then tail else elim (inject fl Context T s.injection ctx (interrupted i)) [
        | some completion ↦ record {
          completion = completion;
          injected = kind_of fl Context T s.injection ∷ [];
        }
        | none ↦ record tail { injected = kind_of fl Context T s.injection ∷ tail.injected }
      ]

  unfoldable pub do_chaos : List (ChaosStrategy fl Context T) → Run fl Context T
  unfolding run_from
  do_chaos strategies = run_from strategies 0 0
