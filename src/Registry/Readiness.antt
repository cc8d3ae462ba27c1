-- ===== src/Registry/Readiness.antt =====
-- registry.go: when the registry is ready, and what its health is.
use r8e.Prelude.{
  ℕ, ◌≡◌, refl, sym, ap, ap₂, ◌∙◌, Bool, true, false, not, ◌&&◌, ◌||◌, List, [], ◌∷◌, ◌++◌, ltb,
  leb, arith, inl, inr, if◌then◌else◌, map, max,
}
use mathlib.Core.List.{append_assoc, append-nil}
use r8e.Prelude.Float.{Float}
use r8e.Health.{
  PolicyStatus, Reporter, Reporters, policy, custom, health_status, critically_down,
  affects_readiness_in, criticality_in, status_of, Patterns,
}
use r8e.Health.Down.{is_open, health_status_cases}
use r8e.Registry.{
  ReadinessStatus, health_healthy, health_degraded, health_unhealthy, Registry, check_readiness,
  readiness_loop, health, health_loop, report_of,
}

module _ (fl : Float) where
  -- A reporter that keeps the registry from being ready: a policy that affects readiness and whose
  -- own circuit breaker is open or ramping, or a reporter of the caller with such a status.
  abbrev pub blocks : Reporter fl → Bool
  blocks (policy p deps) = p.affects_readiness && is_open p.circuit_breaker
  blocks (custom s) = affects_readiness_in s && critically_down s

  abbrev pub none_blocks : List (Reporter fl) → Bool
  none_blocks [] = true
  none_blocks (r ∷ rs) = not (blocks r) && none_blocks rs

  policy-down :
      (p : Patterns fl) (deps : Reporters fl)
      → critically_down (health_status fl (policy p deps)) ≡ is_open p.circuit_breaker
  unfolding critically_down
  policy-down p deps = elim (health_status_cases fl p deps) [
    | inl (o, h, c, s) ↦ rw (o, h, c) refl
    | inr (o, h, c) ↦ rw (o, h) refl
  ]

  blocked :
      (r : Reporter fl)
      → (affects_readiness_in (health_status fl r) && critically_down (health_status fl r))
        ≡ blocks r
  unfolding health_status status_of
  blocked (policy p deps) = ap (◌&&◌ p.affects_readiness) (policy-down p deps)
  blocked (custom s) = refl

  cleared :
      {a b : Bool} (c d : Bool) → a ≡ b → (c && (if a then false else d)) ≡ ((not b && c) && d)
  cleared {a} {b} c d e = ground (arith, e)

  and_true : (c : Bool) → (c && true) ≡ c
  and_true c = ground arith

  leb-max : (k a b : ℕ) (c : Bool) → (leb k (max a b) || c) ≡ (leb k a || (leb k b || c))
  leb-max k a b c = ground arith

  abbrev pub reports : List (Reporter fl) → List PolicyStatus
  reports rs = map (health_status fl) rs

  readiness_loop_lem :
      (rs : List (Reporter fl)) (s : ReadinessStatus)
      → readiness_loop fl rs s
        ≡ record { policies = s.policies ++ reports rs; ready = none_blocks rs && s.ready }
  unfolding readiness_loop
  readiness_loop_lem [] s =
      ap (λ (ps : List PolicyStatus). record s { policies = ps }) (sym (append-nil s.policies))
  readiness_loop_lem (r ∷ rs) s =
      readiness_loop_lem rs _
      ∙ ap₂ (λ (ps : List PolicyStatus) (b : Bool). record { policies = ps; ready = b })
          (append_assoc s.policies (health_status fl r ∷ []) (reports rs))
          (cleared (none_blocks rs) s.ready (blocked r))

  -- CheckReadiness reports the status of every reporter in the order of registration, and is ready
  -- exactly when none of them blocks.
  pub check_readiness_lem :
      (r : Registry fl)
      → check_readiness fl r
        ≡ record { policies = reports r.reporters; ready = none_blocks r.reporters }
  unfolding check_readiness
  check_readiness_lem r =
      readiness_loop_lem r.reporters _
      ∙ ap (λ (b : Bool). record { policies = reports r.reporters; ready = b }) (and_true _)

  -- The highest criticality of the reporters.
  abbrev pub worst_of : ℕ → List (Reporter fl) → ℕ
  worst_of w [] = w
  worst_of w (r ∷ rs) = worst_of (max w (criticality_in (health_status fl r))) rs

  health_loop_lem :
      (rs : List (Reporter fl)) (ps : List PolicyStatus) (w : ℕ)
      → health_loop fl rs ps w ≡ report_of fl (worst_of w rs) (ps ++ reports rs)
  unfolding health_loop
  health_loop_lem [] ps w = ap (report_of fl w) (sym (append-nil ps))
  health_loop_lem (r ∷ rs) ps w =
      let c = criticality_in (health_status fl r) in
      let e : (if ltb w c then c else w) ≡ max w c = ground arith in
      ap (health_loop fl rs (ps ++ (health_status fl r ∷ []))) e
      ∙ health_loop_lem rs (ps ++ (health_status fl r ∷ [])) (max w c)
      ∙ ap (report_of fl (worst_of (max w c) rs))
          (append_assoc ps (health_status fl r ∷ []) (reports rs))

  -- Whether some reporter has at least the criticality `k`.
  abbrev pub some_at : ℕ → List (Reporter fl) → Bool
  some_at k [] = false
  some_at k (r ∷ rs) = leb k (criticality_in (health_status fl r)) || some_at k rs

  leb-worst_of :
      (k w : ℕ) (rs : List (Reporter fl)) → leb k (worst_of w rs) ≡ (leb k w || some_at k rs)
  leb-worst_of k w [] = ground arith
  leb-worst_of k w (r ∷ rs) =
      leb-worst_of k (max w (criticality_in (health_status fl r))) rs
      ∙ leb-max k w (criticality_in (health_status fl r)) (some_at k rs)

  -- Health reports every reporter in the order of registration: unhealthy when one is critical, else
  -- degraded when one is degraded, else healthy.
  pub health_lem :
      (r : Registry fl)
      → health fl r ≡ record {
        policies = reports r.reporters;
        status =
            if some_at 2 r.reporters
            then health_unhealthy
            else if some_at 1 r.reporters
            then health_degraded
            else health_healthy;
      }
  unfolding health report_of
  health_lem r =
      health_loop_lem r.reporters [] 0
      ∙ rw (leb-worst_of 2 0 r.reporters, leb-worst_of 1 0 r.reporters) refl
