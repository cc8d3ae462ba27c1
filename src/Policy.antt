-- ===== src/Policy.antt =====
-- policy.go: the middlewares that NewPolicy installs from the options of a policy.
pub mod Options
mod Setup
pub mod Layers
unfoldable pub use Setup.*
use r8e.Prelude.{ℕ, Bool, true, false, not, Option, none, some, List, [], ◌∷◌, map, if◌then◌else◌}
use r8e.Prelude.Float.{Float}
use r8e.Errors.{Sentinel}
use r8e.Chain
use r8e.Chain.{Middleware, PatternEntry, sort_patterns, chain}

-- The middlewares by their names.
pub data Pattern : Type 0 where
  timeout time_budget retry concurrency_budget circuit_breaker rate_limiter bulkhead
        adaptive_concurrency adaptive_throttle slo hedge recover chaos cache coalesce fallback
        fallback_func :
      Pattern

pub priority_of : Pattern → ℕ
priority_of timeout = Chain.priority_timeout
priority_of time_budget = Chain.priority_time_budget
priority_of retry = Chain.priority_retry
priority_of concurrency_budget = Chain.priority_concurrency_budget
priority_of circuit_breaker = Chain.priority_circuit_breaker
priority_of rate_limiter = Chain.priority_rate_limiter
priority_of bulkhead = Chain.priority_bulkhead
priority_of adaptive_concurrency = Chain.priority_bulkhead
priority_of adaptive_throttle = Chain.priority_throttle
priority_of slo = Chain.priority_slo
priority_of hedge = Chain.priority_hedge
priority_of recover = Chain.priority_recover
priority_of chaos = Chain.priority_chaos
priority_of cache = Chain.priority_cache
priority_of coalesce = Chain.priority_coalesce
priority_of fallback = Chain.priority_fallback
priority_of fallback_func = Chain.priority_fallback

-- The order in which NewPolicy appends the entries.
abbrev pub appended : List Pattern
appended =
    timeout ∷ time_budget ∷ retry ∷ concurrency_budget ∷ circuit_breaker ∷ rate_limiter ∷ bulkhead
    ∷ adaptive_concurrency ∷ adaptive_throttle ∷ slo ∷ hedge ∷ recover ∷ chaos ∷ cache ∷ coalesce
    ∷ fallback ∷ fallback_func ∷ []

abbrev pub keep {ℓ} : {A : Type ℓ} → (A → Bool) → List A → List A
keep p [] = []
keep p (x ∷ xs) = let rest = keep p xs in if p x then x ∷ rest else rest

is_empty {ℓ} : {A : Type ℓ} → List A → Bool
is_empty [] = true
is_empty (x ∷ xs) = false

-- What NewPolicy gives: a chain, or a panic with the error of the setup.
pub data Construction (H : Type 0) : Type 0 where
  panics : Sentinel → Construction H
  constructs : Middleware H → Construction H

module _ (fl : Float) (h : Handles) {H : Type 0}
    (mw : PolicySetup fl h → Pattern → Middleware H) where
  -- Whether NewPolicy appends the entry of a pattern.
  unfoldable pub installed : PolicySetup fl h → Pattern → Bool
  unfolding is_empty
  installed s timeout = is_set s.timeout
  installed s time_budget = is_set s.time_budget
  installed s retry = is_set s.retry
  installed s concurrency_budget = is_set s.concurrency_budget
  installed s circuit_breaker = is_set s.circuit_breaker
  installed s rate_limiter = is_set s.rate_limit
  installed s bulkhead = is_set s.bulkhead
  installed s adaptive_concurrency = is_set s.adaptive
  installed s adaptive_throttle = is_set s.throttle
  installed s slo = is_set s.slo
  installed s hedge = is_set s.hedge
  installed s recover = s.panic_recover
  installed s chaos = elim s.chaos [ none ↦ false | some strategies ↦ not (is_empty strategies) ]
  installed s cache = is_set s.cache
  installed s coalesce = is_set s.coalesce
  installed s fallback = is_set s.fallback_value
  installed s fallback_func = is_set s.fallback_func

  unfoldable pub entry : PolicySetup fl h → Pattern → PatternEntry H Pattern
  unfolding priority_of
  entry s p = record { mw = mw s p; name = p; priority = priority_of p }

  unfoldable pub entries : PolicySetup fl h → List (PatternEntry H Pattern)
  unfolding installed entry
  entries s = map (entry s) (keep (installed s) appended)

  unfoldable pub new_policy : List (PolicyOption fl h) → Construction H
  unfolding apply_options unset check_setup_invariants entries sort_patterns chain
  new_policy opts =
      let s = apply_options fl h opts (unset fl h) in
      elim (check_setup_invariants fl h s) [
        | some e ↦ panics e
        | none ↦ constructs (chain (sort_patterns (entries s)))
      ]
