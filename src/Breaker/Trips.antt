-- ===== src/Breaker/Trips.antt =====
-- circuitbreaker.go: when failures in a row open the breaker, with slow-call detection off.
use r8e.Prelude.{
  ℕ, suc, ◌+◌, ◌≤◌, ◌<◌, ◌≡◌, refl, true, false, List, [], ◌∷◌, ◌++◌, ◌⊎◌, inl, inr, ◌↔◌, max,
  arith, length, All, Bool-cases, ap,
}
use r8e.Prelude.Float.{Float}
use r8e.Breaker.State.{state_closed, state_open, CallInput, slow_call_enabled, CircuitBreaker}
use r8e.Breaker.{record_outcome}

module _ (fl : Float) where
  open fl use {Carrier, le, of_int}

  -- Record, called for one completed call after another.
  unfoldable pub record_all : CircuitBreaker fl → List (CallInput × ℕ) → CircuitBreaker fl
  record_all cb [] = cb
  record_all cb ((input, now) ∷ cs) = record_all (record_outcome fl cb input now).0 cs

  record_all-append :
      (cb : CircuitBreaker fl) (xs ys : List (CallInput × ℕ))
      → record_all cb (xs ++ ys) ≡ record_all (record_all cb xs) ys
  unfolding record_all
  record_all-append cb [] ys = refl
  record_all-append cb ((input, now) ∷ xs) ys =
      record_all-append (record_outcome fl cb input now).0 xs ys

  -- A breaker without slow-call detection that trips at `limit` failures.
  record Counts (limit : ℕ) (cb : CircuitBreaker fl) : Type 0 where
    slow_off : slow_call_enabled fl cb ≡ false
    threshold : max 1 cb.cfg.failure_threshold ≡ limit

  record Serving (limit k : ℕ) (cb : CircuitBreaker fl) : Type 0 where
    counts : Counts limit cb
    closed : cb.state ≡ state_closed
    failures : cb.failure_count ≡ k
    below : k < limit

  record Tripped (limit : ℕ) (cb : CircuitBreaker fl) : Type 0 where
    counts : Counts limit cb
    opened : cb.state ≡ state_open

  step_failure :
      (limit k : ℕ) (cb : CircuitBreaker fl) (input : CallInput) (now : ℕ)
      → Serving limit k cb
      → input.failed ≡ true
      → ((suc k ≡ limit) × Tripped limit (record_outcome fl cb input now).0)
        ⊎ Serving limit (suc k) (record_outcome fl cb input now).0
  unfolding record_outcome slow_call_enabled
  step_failure limit k cb input now s f = ground arith

  step_success :
      (limit k : ℕ) (cb : CircuitBreaker fl) (input : CallInput) (now : ℕ)
      → Serving limit k cb
      → input.failed ≡ false
      → Serving limit 0 (record_outcome fl cb input now).0
  unfolding record_outcome slow_call_enabled
  step_success limit k cb input now s f = ground arith

  step_open :
      (limit : ℕ) (cb : CircuitBreaker fl) (input : CallInput) (now : ℕ)
      → Tripped limit cb
      → Tripped limit (record_outcome fl cb input now).0
  unfolding record_outcome slow_call_enabled
  step_open limit cb input now t = ground arith

  record_all_open :
      (limit : ℕ) (cb : CircuitBreaker fl) (cs : List (CallInput × ℕ))
      → Tripped limit cb
      → Tripped limit (record_all cb cs)
  unfolding record_all
  record_all_open limit cb [] t = t
  record_all_open limit cb ((input, now) ∷ cs) t =
      record_all_open limit (record_outcome fl cb input now).0 cs (step_open limit cb input now t)

  abbrev pub Failed : CallInput × ℕ → Type 0
  Failed c = c.0.failed ≡ true

  -- Enough failures in a row open a breaker that serves.
  failures_trip :
      (limit k : ℕ) (cb : CircuitBreaker fl) (fs : List (CallInput × ℕ))
      → Serving limit k cb
      → All Failed fs
      → limit ≤ k + length fs
      → Tripped limit (record_all cb fs)
  unfolding record_all
  failures_trip limit k cb [] s f h = absurd (omega (arith, s.below))
  failures_trip limit k cb ((input, now) ∷ fs) s f h =
      elim (step_failure limit k cb input now s f.0) [
        | inl (_, t) ↦ record_all_open limit (record_outcome fl cb input now).0 fs t
        | inr s' ↦
            failures_trip limit (suc k) (record_outcome fl cb input now).0 fs s' f.1 (omega arith)
      ]

  -- Whatever is recorded, the breaker still serves or has tripped.
  record_all_cases :
      (limit k : ℕ) (cb : CircuitBreaker fl) (cs : List (CallInput × ℕ))
      → Serving limit k cb
      → Tripped limit (record_all cb cs) ⊎ ((j : ℕ) × Serving limit j (record_all cb cs))
  unfolding record_all
  record_all_cases limit k cb [] s = inr (k, s)
  record_all_cases limit k cb ((input, now) ∷ cs) s = elim (Bool-cases input.failed) [
    | inl f ↦ elim (step_failure limit k cb input now s f) [
      | inl (_, t) ↦ inl (record_all_open limit (record_outcome fl cb input now).0 cs t)
      | inr s' ↦ record_all_cases limit (suc k) (record_outcome fl cb input now).0 cs s'
    ]
    | inr f ↦
        record_all_cases limit 0 (record_outcome fl cb input now).0 cs
          (step_success limit k cb input now s f)
  ]

  -- `limit` failures in a row somewhere among the calls.
  abbrev pub HasStreak : ℕ → List (CallInput × ℕ) → Type 0
  HasStreak limit cs =
      (before : List (CallInput × ℕ)) × (fs : List (CallInput × ℕ)) × (after : List (CallInput × ℕ))
      × (cs ≡ before ++ (fs ++ after))
      × (length fs ≡ limit)
      × All Failed fs

  -- The same where `k` failures came before.
  abbrev Streak : ℕ → ℕ → List (CallInput × ℕ) → Type 0
  Streak limit k cs =
      ((fs : List (CallInput × ℕ)) × (after : List (CallInput × ℕ)) × (cs ≡ fs ++ after)
        × (k + length fs ≡ limit)
        × All Failed fs)
      ⊎ HasStreak limit cs

  Streak-after_success :
      (limit k : ℕ) (c : CallInput × ℕ) (cs : List (CallInput × ℕ))
      → Streak limit 0 cs
      → Streak limit k (c ∷ cs)
  Streak-after_success limit k c cs (inl (fs, after, e, n, f)) =
      inr (c ∷ [], fs, after, ap (◌∷◌ c) e, omega arith, f)
  Streak-after_success limit k c cs (inr (before, fs, after, e, n, f)) =
      inr (c ∷ before, fs, after, ap (◌∷◌ c) e, n, f)

  Streak-after_failure :
      (limit k : ℕ) (c : CallInput × ℕ) (cs : List (CallInput × ℕ))
      → Failed c
      → Streak limit (suc k) cs
      → Streak limit k (c ∷ cs)
  Streak-after_failure limit k c cs h (inl (fs, after, e, n, f)) =
      inl (c ∷ fs, after, ap (◌∷◌ c) e, omega arith, (h, f))
  Streak-after_failure limit k c cs h (inr (before, fs, after, e, n, f)) =
      inr (c ∷ before, fs, after, ap (◌∷◌ c) e, n, f)

  tripped-Streak :
      (limit k : ℕ) (cb : CircuitBreaker fl) (cs : List (CallInput × ℕ))
      → Serving limit k cb
      → (record_all cb cs).state ≡ state_open
      → Streak limit k cs
  unfolding record_all
  tripped-Streak limit k cb [] s o = absurd (ground (arith, s.closed))
  tripped-Streak limit k cb ((input, now) ∷ cs) s o = elim (Bool-cases input.failed) [
    | inl f ↦ elim (step_failure limit k cb input now s f) [
      | inl (e, _) ↦ inl ((input, now) ∷ [], cs, refl, omega arith, (f, tt))
      | inr s' ↦
          Streak-after_failure limit k (input, now) cs f
            (tripped-Streak limit (suc k) (record_outcome fl cb input now).0 cs s' o)
    ]
    | inr f ↦
        Streak-after_success limit k (input, now) cs
          (tripped-Streak limit 0 (record_outcome fl cb input now).0 cs
            (step_success limit k cb input now s f) o)
  ]

  streak_trips :
      (limit k : ℕ) (cb : CircuitBreaker fl) (cs : List (CallInput × ℕ))
      → Serving limit k cb
      → HasStreak limit cs
      → (record_all cb cs).state ≡ state_open
  streak_trips limit k cb cs s (before, fs, after, e, n, f) =
      rw
        (
          e,
          record_all-append cb before (fs ++ after),
          record_all-append (record_all cb before) fs after,
        )
        (elim (record_all_cases limit k cb before s) [
          | inl t ↦
              (record_all_open limit _ after
                (record_all_open limit (record_all cb before) fs t)).opened
          | inr (j, s') ↦
              (record_all_open limit _ after
                (failures_trip limit j (record_all cb before) fs s' f (omega arith))).opened
        ])

  -- A closed breaker with no failure counted and slow-call detection off is open after a run of
  -- recorded calls exactly when some FailureThreshold of them failed in a row.
  pub record_all_open_iff :
      (cb : CircuitBreaker fl) (cs : List (CallInput × ℕ))
      → cb.state ≡ state_closed
      → cb.failure_count ≡ 0
      → slow_call_enabled fl cb ≡ false
      → (record_all cb cs).state ≡ state_open ↔ HasStreak (max 1 cb.cfg.failure_threshold) cs
  record_all_open_iff cb cs c z off =
      let limit = max 1 cb.cfg.failure_threshold in
      let s : Serving limit 0 cb = record {
        counts = record { slow_off = off; threshold = refl };
        closed = c;
        failures = z;
        below = omega arith;
      } in
      (
        λ o. elim (tripped-Streak limit 0 cb cs s o) [
          | inl (fs, after, e, n, f) ↦ ([], fs, after, e, omega arith, f)
          | inr h ↦ h
        ],
        streak_trips limit 0 cb cs s,
      )
