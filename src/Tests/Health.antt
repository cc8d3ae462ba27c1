-- ===== src/Tests/Health.antt =====
-- health.go and registry.go at concrete inputs.
use r8e.Prelude.{ℕ, ◌≤◌, ◌≡◌, true, false, Option, none, some, [], ◌⊎◌}
use r8e.Prelude.Thousandths.{thousandths}
use r8e.Breaker.State.{CircuitState, state_ramping, state_half_open}
use r8e.Health.{
  Patterns, Reporter, policy, no_reporter, reporter, health_status, healthy_in, criticality_in,
  state_of, condition_circuit_open, criticality_critical, criticality_degraded,
}
use r8e.Health.Down.{is_open, health_status_cases}
use r8e.Registry.{Registry, new_registry, register}

abbrev patterns : ℕ → Option CircuitState → Patterns thousandths
patterns name breaker = record {
  name = name;
  circuit_breaker = breaker;
  rate_limited = false;
  bulkhead = none;
  concurrency_limited = false;
  throttling = true;
  slo_burning = false;
  retry_budget = [];
  concurrency_budget = none;
  affects_readiness = true;
}

-- A policy whose breaker ramps, and one that depends on it.
abbrev store : Patterns thousandths
store = patterns 1 (some state_ramping)

abbrev gateway : Reporter thousandths
gateway =
    policy (patterns 2 (some state_half_open)) (reporter (policy store no_reporter) no_reporter)

health_status_cases_example :
    ((is_open store.circuit_breaker ≡ true)
      × (healthy_in (health_status thousandths (policy store no_reporter)) ≡ false)
      × (criticality_in (health_status thousandths (policy store no_reporter))
          ≡ criticality_critical)
      × (state_of (health_status thousandths (policy store no_reporter)) ≡ condition_circuit_open))
    ⊎ ((is_open store.circuit_breaker ≡ false)
        × (healthy_in (health_status thousandths (policy store no_reporter)) ≡ true)
        × (criticality_in (health_status thousandths (policy store no_reporter))
            ≤ criticality_degraded))
health_status_cases_example = health_status_cases thousandths store no_reporter

abbrev registry : Registry thousandths
registry =
    register thousandths (register thousandths (new_registry thousandths) gateway)
      (policy store no_reporter)
