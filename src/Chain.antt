-- ===== src/Chain.antt =====
-- order.go and middleware.go: the middlewares of a policy, sorted by priority and composed. A
-- handler is any type `H`, a middleware a function on it. sort.SliceStable is a stable insertion.
pub mod Order
pub mod Composition
use r8e.Prelude.{ℕ, Bool, true, false, List, [], ◌∷◌, map, reverse, leb, if◌then◌else◌}

abbrev pub Middleware {ℓ} : Type ℓ → Type ℓ
Middleware H = H → H

pub record PatternEntry {ℓ} (H : Type ℓ) (Name : Type 0) : Type ℓ where
  pub mw : Middleware H
  pub name : Name
  pub priority : ℕ

abbrev pub priority_fallback : ℕ
priority_fallback = 0

abbrev pub priority_cache : ℕ
priority_cache = 1

abbrev pub priority_coalesce : ℕ
priority_coalesce = 2

abbrev pub priority_timeout : ℕ
priority_timeout = 3

abbrev pub priority_time_budget : ℕ
priority_time_budget = 4

abbrev pub priority_slo : ℕ
priority_slo = 5

abbrev pub priority_throttle : ℕ
priority_throttle = 6

abbrev pub priority_circuit_breaker : ℕ
priority_circuit_breaker = 7

abbrev pub priority_rate_limiter : ℕ
priority_rate_limiter = 8

abbrev pub priority_bulkhead : ℕ
priority_bulkhead = 9

abbrev pub priority_concurrency_budget : ℕ
priority_concurrency_budget = 10

abbrev pub priority_retry : ℕ
priority_retry = 11

abbrev pub priority_hedge : ℕ
priority_hedge = 12

abbrev pub priority_recover : ℕ
priority_recover = 13

abbrev pub priority_chaos : ℕ
priority_chaos = 14

module _ {ℓ} {H : Type ℓ} {Name : Type 0} where
  unfoldable pub insert :
      PatternEntry H Name → List (PatternEntry H Name) → List (PatternEntry H Name)
  insert e [] = e ∷ []
  insert e (x ∷ xs) =
      let rest = insert e xs in if leb e.priority x.priority then e ∷ x ∷ xs else x ∷ rest

  unfoldable pub sort_stable : List (PatternEntry H Name) → List (PatternEntry H Name)
  unfolding insert
  sort_stable [] = []
  sort_stable (e ∷ es) = insert e (sort_stable es)

  unfoldable pub sort_patterns : List (PatternEntry H Name) → List (Middleware H)
  unfolding sort_stable
  sort_patterns [] = []
  sort_patterns (e ∷ es) = map (λ (x : PatternEntry H Name). x.mw) (sort_stable (e ∷ es))

-- The loop of Chain, from the last middleware down to the first.
wrap {ℓ} : {H : Type ℓ} → List (Middleware H) → H → H
wrap [] next = next
wrap (m ∷ ms) next = wrap ms (m next)

unfoldable pub chain {ℓ} : {H : Type ℓ} → List (Middleware H) → Middleware H
unfolding wrap
chain middlewares next = wrap (reverse middlewares) next
