-- ===== src/Health/Down.antt =====
-- health.go: which policies are critically down.
use r8e.Prelude.{
  ℕ, ◌≤◌, ◌≡◌, refl, ap, ◌∙◌, Bool, true, false, Option, none, some, List, [], ◌∷◌, ◌++◌, ltb,
  arith, ◌⊎◌, inl, inr, if◌then◌else◌, All,
}
use r8e.Prelude.Float.{Float}
use r8e.Breaker.State.{CircuitState, state_closed, state_open, state_half_open, state_ramping}
use r8e.Health.{
  Condition, condition_circuit_open, condition_dependency_degraded, condition_rate_limited,
  condition_bulkhead_full, condition_bulkhead_overloaded, condition_concurrency_limited,
  condition_throttling, condition_slo_burning, condition_retry_budget_exhausted,
  condition_concurrency_budget_exhausted, criticality_of, worst_from, circuit_conditions,
  dependency_conditions, Dependencies, no_dependency, dependency, state_of, criticality_in,
  healthy_in, critically_down, collect_conditions, status_of, Patterns, Reporters, policy,
  health_status, statuses, summarize_state, full, backed_up, when, contains, same_condition,
  criticality_critical, criticality_degraded,
}

abbrev pub is_open : Option CircuitState → Bool
is_open (some state_open) = true
is_open (some state_ramping) = true
is_open _ = false

-- The conditions of which none is critical.
pub Mild : List Condition → Type 0
Mild cs = All (λ (c : Condition). criticality_of c ≤ criticality_degraded) cs

Mild-++ : (xs ys : List Condition) → Mild xs → Mild ys → Mild (xs ++ ys)
unfolding Mild
Mild-++ [] ys v w = w
Mild-++ (x ∷ xs) ys (h, v) w = (h, Mild-++ xs ys v w)

Mild-when : (b : Bool) (c : Condition) → criticality_of c ≤ criticality_degraded → Mild (when b c)
unfolding Mild
Mild-when true c h = (h, tt)
Mild-when false c h = tt

raised : ℕ → ℕ → ℕ
raised w c = if ltb w c then c else w

worst_from-Mild : (w : ℕ) (cs : List Condition) → w ≤ 1 → Mild cs → worst_from w cs ≤ 1
unfolding worst_from raised Mild
worst_from-Mild w [] k v = k
worst_from-Mild w (c ∷ cs) k (h, v) =
    let next : raised w (criticality_of c) ≤ 1 = ground (arith, h, k) in
    worst_from-Mild (raised w (criticality_of c)) cs next v

worst_from-critical : (cs : List Condition) → Mild cs → worst_from 2 cs ≡ 2
unfolding worst_from raised Mild
worst_from-critical [] v = refl
worst_from-critical (c ∷ cs) (h, v) =
    let next : raised 2 (criticality_of c) ≡ 2 = ground (arith, h) in
    ap (λ (w : ℕ). worst_from w cs) next ∙ worst_from-critical cs v

dependency_conditions-Mild : (deps : Dependencies) → Mild (dependency_conditions deps)
unfolding dependency_conditions criticality_of Mild
dependency_conditions-Mild no_dependency = tt
dependency_conditions-Mild (dependency s deps) =
    Mild-++ _ (dependency_conditions deps)
      (Mild-when (critically_down s) condition_dependency_degraded (omega arith))
      (dependency_conditions-Mild deps)

when-Mild :
    (b : Bool) (c : Condition) (ys : List Condition)
    → criticality_of c ≤ criticality_degraded
    → Mild ys
    → Mild (when b c ++ ys)
when-Mild b c ys h w = Mild-++ (when b c) ys (Mild-when b c h) w

worst_from-circuit :
    (o : Option CircuitState) (rest : List Condition)
    → Mild rest
    → ((is_open o ≡ true)
        × (worst_from 0 (circuit_conditions o ++ rest) ≡ 2)
        × (summarize_state (circuit_conditions o ++ rest) ≡ condition_circuit_open))
      ⊎ ((is_open o ≡ false) × (worst_from 0 (circuit_conditions o ++ rest) ≤ 1))
unfolding circuit_conditions worst_from criticality_of summarize_state same_condition contains
worst_from-circuit none rest v = inr (refl, worst_from-Mild 0 rest (omega arith) v)
worst_from-circuit (some state_closed) rest v = inr (refl, worst_from-Mild 0 rest (omega arith) v)
worst_from-circuit (some state_half_open) rest v =
    inr (refl, worst_from-Mild 0 rest (omega arith) v)
worst_from-circuit (some state_open) rest v = inl (refl, worst_from-critical rest v, refl)
worst_from-circuit (some state_ramping) rest v = inl (refl, worst_from-critical rest v, refl)

module _ (fl : Float) where
  -- The conditions of the patterns behind the circuit breaker, and of the dependencies.
  rest_of : Patterns fl → Dependencies → List Condition
  unfolding collect_conditions circuit_conditions
  rest_of p deps = collect_conditions fl (record p { circuit_breaker = none }) deps

  rest_of-Mild : (p : Patterns fl) (deps : Dependencies) → Mild (rest_of p deps)
  unfolding rest_of collect_conditions circuit_conditions criticality_of
  rest_of-Mild p deps = when-Mild p.rate_limited condition_rate_limited _ (omega arith) (
      when-Mild (full p.bulkhead) condition_bulkhead_full _ (omega arith) (
        when-Mild (backed_up p.bulkhead) condition_bulkhead_overloaded _ (omega arith) (
          when-Mild p.concurrency_limited condition_concurrency_limited _ (omega arith) (
            when-Mild p.throttling condition_throttling _ (omega arith) (
              when-Mild p.slo_burning condition_slo_burning _ (omega arith) (
                when-Mild _ condition_retry_budget_exhausted _ (omega arith) (
                  when-Mild _ condition_concurrency_budget_exhausted _ (omega arith)
                    (dependency_conditions-Mild deps))))))))

  -- A policy is unhealthy, with the criticality that gates readiness and the state circuit_open,
  -- exactly when its own circuit breaker is open or ramping; whatever else its patterns and its
  -- dependencies report degrades it at most.
  pub health_status_cases :
      (p : Patterns fl) (deps : Reporters fl)
      → let s = health_status fl (policy p deps) in
        ((is_open p.circuit_breaker ≡ true)
          × (healthy_in s ≡ false)
          × (criticality_in s ≡ criticality_critical)
          × (state_of s ≡ condition_circuit_open))
        ⊎ ((is_open p.circuit_breaker ≡ false)
            × (healthy_in s ≡ true)
            × (criticality_in s ≤ criticality_degraded))
  unfolding health_status status_of collect_conditions rest_of
  health_status_cases p deps =
      let rest = rest_of p (statuses fl deps) in
      elim (worst_from-circuit p.circuit_breaker rest (rest_of-Mild p (statuses fl deps))) [
        | inl (o, w, c) ↦ inl (o, ground (arith, w), w, c)
        | inr (o, w) ↦ inr (o, ground (arith, w), w)
      ]
