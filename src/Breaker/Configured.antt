-- ===== src/Breaker/Configured.antt =====
-- circuitbreaker.go: what every option keeps, so what holds of every configuration in use.
use r8e.Prelude.{ℕ, ◌≤◌, ◌≡◌, true, List, [], ◌∷◌, arith}
use r8e.Prelude.Float.{Float, FloatLaws}
use r8e.Breaker.Options.{
  Config, CircuitBreakerOption, failure_threshold, default_circuit_breaker_config,
  clamp_unit_interval, apply_option, apply_options,
}
use r8e.Breaker.State.{CircuitBreaker, new_circuit_breaker, reconfigure, ramp_fraction_at, positive}
use r8e.Breaker.Limits.{ramp_fraction_bounds}

module _ (fl : Float) (laws : FloatLaws fl) where
  open fl use {Carrier, le, of_int, div}
  open laws use {order, of_int_mono, of_int_pos, div_nonneg, div_le_one}
  open order use {le_refl, le_total}

  abbrev UnitInterval : Carrier → Type 0
  UnitInterval f = (le (of_int 0) f ≡ true) × (le f (of_int 1) ≡ true)

  pub record IsValid (cfg : Config fl) : Type 0 where
    pub rate_unit : UnitInterval cfg.slow_call_rate_threshold
    pub initial_unit : UnitInterval cfg.ramp_initial_fraction
    pub aggression_pos : positive fl cfg.ramp_aggression ≡ true
    pub window_pos : 1 ≤ cfg.slow_call_window
    pub min_calls_pos : 1 ≤ cfg.slow_call_min_calls

  clamp_unit_interval-UnitInterval : (f : Carrier) → UnitInterval (clamp_unit_interval fl f)
  unfolding clamp_unit_interval
  clamp_unit_interval-UnitInterval f =
      ground (arith, le_refl (of_int 0), le_refl (of_int 1), of_int_mono 0 1)

  default-IsValid : IsValid (default_circuit_breaker_config fl)
  unfolding default_circuit_breaker_config
  default-IsValid = ground (
    arith,
    le_refl (of_int 0),
    of_int_mono 0 1,
    of_int_mono 1 10,
    of_int_pos 1,
    of_int_pos 10,
    div_nonneg (of_int 1) (of_int 10),
    div_le_one (of_int 1) (of_int 10),
  )

  apply_option-IsValid :
      (o : CircuitBreakerOption fl) (cfg : Config fl)
      → IsValid cfg
      → IsValid (apply_option fl o cfg)
  unfolding apply_option
  apply_option-IsValid (failure_threshold n) cfg v = ground arith
  apply_option-IsValid (CircuitBreakerOption.slow_call_rate d rate) cfg v =
      ground (arith, clamp_unit_interval-UnitInterval rate)
  apply_option-IsValid (CircuitBreakerOption.ramp_initial_fraction f) cfg v =
      ground (arith, clamp_unit_interval-UnitInterval f)
  apply_option-IsValid _ cfg v = ground arith

  pub apply_options-IsValid :
      (os : List (CircuitBreakerOption fl)) (cfg : Config fl)
      → IsValid cfg
      → IsValid (apply_options fl os cfg)
  unfolding apply_options
  apply_options-IsValid [] cfg v = v
  apply_options-IsValid (o ∷ os) cfg v =
      apply_options-IsValid os (apply_option fl o cfg) (apply_option-IsValid o cfg v)

  reconfigure-cfg :
      (cb : CircuitBreaker fl) (os : List (CircuitBreakerOption fl))
      → (reconfigure fl cb os).cfg ≡ apply_options fl os cb.cfg
  unfolding reconfigure
  reconfigure-cfg cb os = ground arith

  new_circuit_breaker-IsValid :
      (os : List (CircuitBreakerOption fl)) → IsValid (new_circuit_breaker fl os).cfg
  unfolding new_circuit_breaker
  new_circuit_breaker-IsValid os = apply_options-IsValid os _ default-IsValid

  -- Whatever options a breaker was built and then reconfigured with, the share of the traffic that it
  -- admits in the ramp lies between its initial fraction and 1, and the initial fraction in [0, 1].
  pub ramp_fraction_at_bounds :
      (built changed : List (CircuitBreakerOption fl)) (elapsed : ℕ)
      → let cb = reconfigure fl (new_circuit_breaker fl built) changed in
        (le (of_int 0) cb.cfg.ramp_initial_fraction ≡ true)
        × (le cb.cfg.ramp_initial_fraction (ramp_fraction_at fl cb elapsed) ≡ true)
        × (le (ramp_fraction_at fl cb elapsed) (of_int 1) ≡ true)
  unfolding ramp_fraction_at
  ramp_fraction_at_bounds built changed elapsed =
      let cb = reconfigure fl (new_circuit_breaker fl built) changed in
      let v : IsValid cb.cfg =
        rw (reconfigure-cfg (new_circuit_breaker fl built) changed)
          (apply_options-IsValid changed _ (new_circuit_breaker-IsValid built)) in
      let b =
        ramp_fraction_bounds fl laws elapsed cb.cfg.ramp_recovery_window cb.cfg.ramp_aggression
          cb.cfg.ramp_initial_fraction v.initial_unit.1 in
      (v.initial_unit.0, b.0, b.1)
