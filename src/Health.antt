-- ===== src/Health.antt =====
-- health.go and registry.go: the status of a policy, derived from its stateful patterns and from its
-- dependencies, and the registry's reports. The answers of the patterns that have no module here are
-- Booleans; a reporter of the caller is its status. A condition outside the constants is `other`.
pub mod Down
use r8e.Prelude.{
  ℕ, ◌+◌, Bool, true, false, not, ◌&&◌, ◌||◌, Option, none, some, List, [], ◌∷◌, ◌++◌, ◌==◌, ltb,
  leb, if◌then◌else◌,
}
use r8e.Prelude.Float.{Float}
use r8e.Breaker.State.{CircuitState, state_closed, state_open, state_half_open, state_ramping}
use r8e.Bulkhead.{Bulkhead, is_full, overloaded}
use r8e.RetryBudget.{RetryBudget}
use r8e.ConcurrencyBudget.{ConcurrencyBudget}
use r8e.RetryBudget
use r8e.ConcurrencyBudget

abbrev pub Criticality : Type 0
Criticality = ℕ

abbrev pub criticality_none : Criticality
criticality_none = 0

abbrev pub criticality_degraded : Criticality
criticality_degraded = 1

abbrev pub criticality_critical : Criticality
criticality_critical = 2

pub data Condition : Type 0 where
  condition_healthy condition_circuit_open condition_rate_limited condition_bulkhead_full
        condition_bulkhead_overloaded condition_dependency_degraded condition_circuit_half_open
        condition_retry_budget_exhausted condition_concurrency_limited condition_throttling
        condition_slo_burning condition_concurrency_budget_exhausted :
      Condition
  other : ℕ → Condition

code : Condition → ℕ
code condition_healthy = 0
code condition_circuit_open = 1
code condition_rate_limited = 2
code condition_bulkhead_full = 3
code condition_bulkhead_overloaded = 4
code condition_dependency_degraded = 5
code condition_circuit_half_open = 6
code condition_retry_budget_exhausted = 7
code condition_concurrency_limited = 8
code condition_throttling = 9
code condition_slo_burning = 10
code condition_concurrency_budget_exhausted = 11
code (other n) = n + 12

same_condition : Condition → Condition → Bool
unfolding code
same_condition c d = code c == code d

mutual
  pub data PolicyStatus : Type 0 where
    -- The name, State, Conditions, Dependencies, Criticality, Healthy and AffectsReadiness.
    policy_status :
        ℕ → Condition → List Condition → Dependencies → Criticality → Bool → Bool → PolicyStatus

  pub data Dependencies : Type 0 where
    no_dependency : Dependencies
    dependency : PolicyStatus → Dependencies → Dependencies

abbrev pub state_of : PolicyStatus → Condition
state_of (policy_status name state conditions deps criticality healthy affects) = state

abbrev pub criticality_in : PolicyStatus → Criticality
criticality_in (policy_status name state conditions deps criticality healthy affects) = criticality

abbrev pub healthy_in : PolicyStatus → Bool
healthy_in (policy_status name state conditions deps criticality healthy affects) = healthy

abbrev pub affects_readiness_in : PolicyStatus → Bool
affects_readiness_in (policy_status name state conditions deps criticality healthy affects) =
    affects

unfoldable pub critically_down : PolicyStatus → Bool
critically_down s = not (healthy_in s) && (criticality_in s == criticality_critical)

-- The table conditionSeverity, most severe first.
abbrev condition_severity : List (Condition × Criticality)
condition_severity =
    (condition_circuit_open, criticality_critical)
    ∷ (condition_rate_limited, criticality_degraded)
    ∷ (condition_bulkhead_full, criticality_degraded)
    ∷ (condition_bulkhead_overloaded, criticality_degraded)
    ∷ (condition_concurrency_limited, criticality_degraded)
    ∷ (condition_throttling, criticality_degraded)
    ∷ (condition_slo_burning, criticality_degraded)
    ∷ (condition_retry_budget_exhausted, criticality_degraded)
    ∷ (condition_concurrency_budget_exhausted, criticality_degraded)
    ∷ (condition_dependency_degraded, criticality_degraded)
    ∷ (condition_circuit_half_open, criticality_none)
    ∷ []

look_up : List (Condition × Criticality) → Condition → Criticality
unfolding same_condition
look_up [] c = criticality_degraded
look_up ((k, v) ∷ specs) c = let rest = look_up specs c in if same_condition k c then v else rest

unfoldable pub criticality_of : Condition → Criticality
unfolding look_up
criticality_of c = look_up condition_severity c

contains : List Condition → Condition → Bool
unfolding same_condition
contains [] c = false
contains (d ∷ ds) c = same_condition d c || contains ds c

first_of : List Condition → Condition
first_of [] = condition_healthy
first_of (c ∷ cs) = c

summarize_by : List (Condition × Criticality) → List Condition → Condition
unfolding contains first_of
summarize_by [] conditions = first_of conditions
summarize_by ((k, v) ∷ specs) conditions =
    let rest = summarize_by specs conditions in if contains conditions k then k else rest

unfoldable pub summarize_state : List Condition → Condition
unfolding summarize_by
summarize_state conditions = summarize_by condition_severity conditions

unfoldable pub circuit_condition : CircuitState → Option Condition
circuit_condition state_open = some condition_circuit_open
circuit_condition state_half_open = some condition_circuit_half_open
circuit_condition state_closed = none
circuit_condition _ = some condition_circuit_open

unfoldable worst_from : Criticality → List Condition → Criticality
unfolding criticality_of
worst_from worst [] = worst
worst_from worst (c ∷ cs) =
    worst_from (if ltb worst (criticality_of c) then criticality_of c else worst) cs

abbrev when : Bool → Condition → List Condition
when true c = c ∷ []
when false c = []

abbrev full : Option Bulkhead → Bool
full none = false
full (some b) = is_full b

abbrev backed_up : Option Bulkhead → Bool
backed_up none = false
backed_up (some b) = overloaded b

circuit_conditions : Option CircuitState → List Condition
unfolding circuit_condition
circuit_conditions none = []
circuit_conditions (some s) = elim (circuit_condition s) [ none ↦ [] | some c ↦ c ∷ [] ]

dependency_conditions : Dependencies → List Condition
unfolding critically_down
dependency_conditions no_dependency = []
dependency_conditions (dependency s deps) =
    when (critically_down s) condition_dependency_degraded ++ dependency_conditions deps

-- The stateful patterns of a policy; an absent one is none or false.
pub record Patterns (fl : Float) : Type 0 where
  pub name : ℕ
  pub circuit_breaker : Option CircuitState
  pub rate_limited : Bool
  pub bulkhead : Option Bulkhead
  pub concurrency_limited : Bool
  pub throttling : Bool
  pub slo_burning : Bool
  pub retry_budget : List (RetryBudget fl)
  pub concurrency_budget : Option (ConcurrencyBudget fl)
  pub affects_readiness : Bool

module _ (fl : Float) where
  collect_conditions : Patterns fl → Dependencies → List Condition
  unfolding circuit_conditions dependency_conditions
  collect_conditions p deps =
      circuit_conditions p.circuit_breaker
      ++ (when p.rate_limited condition_rate_limited
          ++ (when (full p.bulkhead) condition_bulkhead_full
              ++ (when (backed_up p.bulkhead) condition_bulkhead_overloaded
                  ++ (when p.concurrency_limited condition_concurrency_limited
                      ++ (when p.throttling condition_throttling
                          ++ (when p.slo_burning condition_slo_burning
                              ++ (when (RetryBudget.exhausted fl p.retry_budget)
                                    condition_retry_budget_exhausted
                                  ++ (when (ConcurrencyBudget.exhausted fl p.concurrency_budget)
                                        condition_concurrency_budget_exhausted
                                      ++ dependency_conditions deps))))))))

  unfoldable pub status_of : Patterns fl → Dependencies → PolicyStatus
  unfolding collect_conditions summarize_state worst_from
  status_of p deps =
      let conditions = collect_conditions p deps in
      let worst = worst_from criticality_none conditions in
      policy_status p.name (summarize_state conditions) conditions deps worst
        (ltb worst criticality_critical) p.affects_readiness

  -- A HealthReporter: a policy with its declared dependencies, or one of the caller.
  mutual
    pub data Reporter : Type 0 where
      policy : Patterns fl → Reporters → Reporter
      custom : PolicyStatus → Reporter

    pub data Reporters : Type 0 where
      no_reporter : Reporters
      reporter : Reporter → Reporters → Reporters

  unfoldable mutual
    unfolding status_of

    pub health_status : Reporter → PolicyStatus
    health_status (policy p deps) = status_of p (statuses deps)
    health_status (custom s) = s

    pub statuses : Reporters → Dependencies
    statuses no_reporter = no_dependency
    statuses (reporter r rs) = dependency (health_status r) (statuses rs)
