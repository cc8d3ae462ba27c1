-- ===== src/Registry.antt =====
-- registry.go: the registry of reporters. Its copy-on-write list is a list.
pub mod Readiness
use r8e.Prelude.{ℕ, Bool, true, false, not, ◌&&◌, List, [], ◌∷◌, ◌++◌, ltb, leb, if◌then◌else◌}
use r8e.Prelude.Float.{Float}
use r8e.Health.{
  PolicyStatus, Reporter, health_status, critically_down, affects_readiness_in, criticality_in,
  Criticality, criticality_none, criticality_degraded, criticality_critical,
}

pub record ReadinessStatus : Type 0 where
  pub policies : List PolicyStatus
  pub ready : Bool

pub data HealthState : Type 0 where
  health_healthy health_degraded health_unhealthy : HealthState

pub record HealthReport : Type 0 where
  pub policies : List PolicyStatus
  pub status : HealthState

module _ (fl : Float) where
  pub record Registry : Type 0 where
    pub reporters : List (Reporter fl)

  unfoldable pub new_registry : Registry
  new_registry = record { reporters = [] }

  unfoldable pub register : Registry → Reporter fl → Registry
  register r hr = record { reporters = r.reporters ++ (hr ∷ []) }

  unfoldable readiness_loop : List (Reporter fl) → ReadinessStatus → ReadinessStatus
  unfolding health_status critically_down
  readiness_loop [] status = status
  readiness_loop (hr ∷ hrs) status =
      let ps = health_status fl hr in
      readiness_loop hrs (record {
        policies = status.policies ++ (ps ∷ []);
        ready = if affects_readiness_in ps && critically_down ps then false else status.ready;
      })

  unfoldable pub check_readiness : Registry → ReadinessStatus
  unfolding readiness_loop
  check_readiness r = readiness_loop r.reporters (record { policies = []; ready = true })

  report_of : Criticality → List PolicyStatus → HealthReport
  report_of worst policies = record {
    policies = policies;
    status =
        if leb criticality_critical worst
        then health_unhealthy
        else if leb criticality_degraded worst
        then health_degraded
        else health_healthy;
  }

  health_loop : List (Reporter fl) → List PolicyStatus → Criticality → HealthReport
  unfolding health_status report_of
  health_loop [] policies worst = report_of worst policies
  health_loop (hr ∷ hrs) policies worst =
      let ps = health_status fl hr in
      health_loop hrs (policies ++ (ps ∷ []))
        (if ltb worst (criticality_in ps) then criticality_in ps else worst)

  unfoldable pub health : Registry → HealthReport
  unfolding health_loop
  health r = health_loop r.reporters [] criticality_none
