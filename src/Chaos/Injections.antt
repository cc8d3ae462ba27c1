-- ===== src/Chaos/Injections.antt =====
-- chaos.go: which strategies disturb a call, and how.
use r8e.Prelude.{
  ℕ, ◌+◌, ◌≤◌, ◌<◌, ◌≡◌, refl, subst, Bool, true, false, Option, none, some, List, [], ◌∷◌,
  Bool-cases, Option-cases, ◌⊎◌, inl, inr, leb, arith, if◌then◌else◌,
}
use r8e.Prelude.Float.{Float, lt}
use r8e.Errors.{Error}
use r8e.Retry.{err}
use r8e.Recover.{Completion, returned, panicked}
use r8e.Chaos.{
  ChaosKind, kind_fault, kind_latency, kind_outcome, kind_behavior, Injection, fault, latency,
  outcome, behavior, ChaosStrategy, Run, is_inert, is_enabled, injects, wait, inject, kind_of,
  run_from, do_chaos,
}

module _ (fl : Float) (Context T : Type 0) (sampler : ℕ → fl.Carrier)
    (interrupted : ℕ → Option Error) (ctx : Context) (next : Completion T) where
  open fl use {le, of_int}

  -- There is something to inject: an outcome and a behavior need their function.
  pub data Usable : Injection fl Context T → Type 0 where
    a_fault : (e : Error) → Usable (fault e)
    a_latency : (d : ℕ) → Usable (latency d)
    an_outcome : (fn : Context → Completion T) → Usable (outcome (some fn))
    a_behavior : (fn : Context → Option ℕ) → Usable (behavior (some fn))

  -- There is no predicate, or it lets the call through.
  pub data Allowed (gate : Option (Context → Bool)) : Type 0 where
    ungated : gate ≡ none → Allowed gate
    admitted : (pred : Context → Bool) → gate ≡ some pred → pred ctx ≡ true → Allowed gate

  -- Whether a strategy fires, with a draw at hand, and whether it takes the draw.
  pub data Choice (s : ChaosStrategy fl Context T) (draw : fl.Carrier) : Bool → Bool → Type 0 where
    no_outcome : s.injection ≡ outcome none → Choice s draw false false
    no_behavior : s.injection ≡ behavior none → Choice s draw false false
    kept_out :
        (pred : Context → Bool)
        → s.enabled ≡ some pred
        → pred ctx ≡ false
        → Choice s draw false false
    never : le s.prob (of_int 0) ≡ true → Choice s draw false false
    always :
        Usable s.injection
        → Allowed s.enabled
        → le s.prob (of_int 0) ≡ false
        → le (of_int 1) s.prob ≡ true
        → Choice s draw true false
    drawn_for :
        (fires : Bool)
        → Usable s.injection
        → Allowed s.enabled
        → le s.prob (of_int 0) ≡ false
        → le (of_int 1) s.prob ≡ false
        → lt fl draw s.prob ≡ fires
        → Choice s draw fires true

  -- What the strategy number `i` does to the call: the kind that is reported, and how the call ends, if the
  -- strategy ends it.
  pub data Effect (i : ℕ)
      : Injection fl Context T → ChaosKind → Option (Completion T) → Type 0 where
    fails : (e : Error) → Effect i (fault e) kind_fault (some (returned (err e)))
    answers :
        (fn : Context → Completion T) → Effect i (outcome (some fn)) kind_outcome (some (fn ctx))
    waits : (d : ℕ) → (d ≤ 0) ⊎ (interrupted i ≡ none) → Effect i (latency d) kind_latency none
    is_stopped :
        (d : ℕ) (e : Error)
        → 0 < d
        → interrupted i ≡ some e
        → Effect i (latency d) kind_latency (some (returned (err e)))
    acts :
        (fn : Context → Option ℕ) → fn ctx ≡ none → Effect i (behavior (some fn)) kind_behavior none
    panics :
        (fn : Context → Option ℕ) (value : ℕ)
        → fn ctx ≡ some value
        → Effect i (behavior (some fn)) kind_behavior (some (panicked value))

  -- How a call goes through the strategies, of which the first has the number `i`, when `drawn` draws have
  -- been taken: one after the other, each chosen by its own draw, until one ends the call; the call itself is
  -- made after the last one.
  pub data Disturbed : List (ChaosStrategy fl Context T) → ℕ → ℕ → Run fl Context T → Type 0 where
    is_made : (i drawn : ℕ) → Disturbed [] i drawn (record { completion = next; injected = [] })
    skips :
        (s : ChaosStrategy fl Context T) (rest : List (ChaosStrategy fl Context T)) (i drawn : ℕ)
        (draws : Bool) (run : Run fl Context T)
        → Choice s (sampler drawn) false draws
        → Disturbed rest (i + 1) (if draws then drawn + 1 else drawn) run
        → Disturbed (s ∷ rest) i drawn run
    goes_on :
        (s : ChaosStrategy fl Context T) (rest : List (ChaosStrategy fl Context T)) (i drawn : ℕ)
        (draws : Bool) (kind : ChaosKind) (run : Run fl Context T)
        → Choice s (sampler drawn) true draws
        → Effect i s.injection kind none
        → Disturbed rest (i + 1) (if draws then drawn + 1 else drawn) run
        → Disturbed (s ∷ rest) i drawn (record run { injected = kind ∷ run.injected })
    ends :
        (s : ChaosStrategy fl Context T) (rest : List (ChaosStrategy fl Context T)) (i drawn : ℕ)
        (draws : Bool) (kind : ChaosKind) (c : Completion T)
        → Choice s (sampler drawn) true draws
        → Effect i s.injection kind (some c)
        → Disturbed (s ∷ rest) i drawn (record { completion = c; injected = kind ∷ [] })

  is_inert_cases :
      (j : Injection fl Context T)
      → ((is_inert fl Context T j ≡ true) × ((j ≡ outcome none) ⊎ (j ≡ behavior none)))
        ⊎ ((is_inert fl Context T j ≡ false) × Usable j)
  unfolding is_inert
  is_inert_cases (fault e) = inr (refl, a_fault e)
  is_inert_cases (latency d) = inr (refl, a_latency d)
  is_inert_cases (outcome none) = inl (refl, inl refl)
  is_inert_cases (outcome (some fn)) = inr (refl, an_outcome fn)
  is_inert_cases (behavior none) = inl (refl, inr refl)
  is_inert_cases (behavior (some fn)) = inr (refl, a_behavior fn)

  is_enabled_cases :
      (gate : Option (Context → Bool))
      → ((is_enabled fl Context T gate ctx ≡ true) × Allowed gate)
        ⊎ ((is_enabled fl Context T gate ctx ≡ false)
            × ((pred : Context → Bool) × (gate ≡ some pred) × (pred ctx ≡ false)))
  unfolding is_enabled
  is_enabled_cases none = inl (refl, ungated refl)
  is_enabled_cases (some pred) = elim (Bool-cases (pred ctx)) [
    | inl t ↦ inl (t, admitted pred refl t)
    | inr f ↦ inr (f, (pred, refl, f))
  ]

  injects-Choice :
      (s : ChaosStrategy fl Context T) (draw : fl.Carrier)
      → Choice s draw (injects fl Context T s ctx draw).0 (injects fl Context T s ctx draw).1
  unfolding injects
  injects-Choice s draw = elim (is_inert_cases s.injection) [
    | inl (t, inl e) ↦ rw t (no_outcome e)
    | inl (t, inr e) ↦ rw t (no_behavior e)
    | inr (n, u) ↦ elim (is_enabled_cases s.enabled) [
      | inr (f, (pred, e, k)) ↦ rw (n, f) (kept_out pred e k)
      | inl (t, a) ↦ elim (Bool-cases (le s.prob (of_int 0))) [
        | inl z ↦ rw (n, t, z) (never z)
        | inr z ↦ elim (Bool-cases (le (of_int 1) s.prob)) [
          | inl o ↦ rw (n, t, z, o) (always u a z o)
          | inr o ↦ rw (n, t, z, o) (drawn_for _ u a z o refl)
        ]
      ]
    ]
  ]

  Choice-Usable :
      (s : ChaosStrategy fl Context T) (draw : fl.Carrier) (fires draws : Bool)
      → fires ≡ true
      → Choice s draw fires draws
      → Usable s.injection
  Choice-Usable s draw _ _ h (no_outcome e) = absurd (cc h)
  Choice-Usable s draw _ _ h (no_behavior e) = absurd (cc h)
  Choice-Usable s draw _ _ h (kept_out pred e k) = absurd (cc h)
  Choice-Usable s draw _ _ h (never z) = absurd (cc h)
  Choice-Usable s draw _ _ h (always u a z o) = u
  Choice-Usable s draw _ _ h (drawn_for fires u a z o l) = u

  inject-Effect :
      (i : ℕ) (j : Injection fl Context T)
      → Usable j
      → Effect i j (kind_of fl Context T j) (inject fl Context T j ctx (interrupted i))
  unfolding kind_of inject wait
  inject-Effect i _ (a_fault e) = fails e
  inject-Effect i _ (an_outcome fn) = answers fn
  inject-Effect i _ (a_latency d) = elim (Bool-cases (leb d 0)) [
    | inl t ↦ rw (inject, wait, t) (waits d (inl (ground (arith, t))))
    | inr f ↦ elim (Option-cases (interrupted i)) [
      | inl e ↦ rw (inject, wait, f, e) (waits d (inr e))
      | inr (x, e) ↦ rw (inject, wait, f, e) (is_stopped d x (ground (arith, f)) e)
    ]
  ]
  inject-Effect i _ (a_behavior fn) = elim (Option-cases (fn ctx)) [
    | inl e ↦ rw (inject, e) (acts fn e)
    | inr (v, e) ↦ rw (inject, e) (panics fn v e)
  ]

  run_from-Disturbed :
      (strategies : List (ChaosStrategy fl Context T)) (i drawn : ℕ)
      → Disturbed strategies i drawn
          (run_from fl Context T sampler interrupted ctx next strategies i drawn)
  unfolding run_from
  run_from-Disturbed [] i drawn = is_made i drawn
  run_from-Disturbed (s ∷ rest) i drawn =
      let (fires, draws) = injects fl Context T s ctx (sampler drawn) in
      let chosen = injects-Choice s (sampler drawn) in
      let later = run_from-Disturbed rest (i + 1) (if draws then drawn + 1 else drawn) in
      elim (Bool-cases fires) [
        | inr f ↦ rw f (
            skips s rest i drawn draws _
              (subst (λ (b : Bool). Choice s (sampler drawn) b draws) f chosen) later)
        | inl t ↦
            let chosen' = subst (λ (b : Bool). Choice s (sampler drawn) b draws) t chosen in
            let effect = inject-Effect i s.injection (Choice-Usable s _ _ _ t chosen) in
            let P = Effect i s.injection (kind_of fl Context T s.injection) in
            elim (Option-cases (inject fl Context T s.injection ctx (interrupted i))) [
              | inl e ↦
                  rw (t, e) (goes_on s rest i drawn draws _ _ chosen' (subst P e effect) later)
              | inr (c, e) ↦ rw (t, e) (ends s rest i drawn draws _ c chosen' (subst P e effect))
            ]
      ]

  -- The strategies are looked at in their order. One fires when it has something to inject, its predicate lets
  -- the call through and its probability is above 0, and at least 1 or above the draw that is then taken for
  -- it. A fault, an outcome, a panic of a behavior and a wait that is cut off end the call with their
  -- result, and the later strategies are left out; after a wait or a behavior the call goes on. If no
  -- strategy ends it, the call is made after all of them. The kinds of those that fired are reported in order.
  pub do_chaos-Disturbed :
      (strategies : List (ChaosStrategy fl Context T))
      → Disturbed strategies 0 0 (do_chaos fl Context T sampler interrupted ctx next strategies)
  unfolding do_chaos
  do_chaos-Disturbed strategies = run_from-Disturbed strategies 0 0
