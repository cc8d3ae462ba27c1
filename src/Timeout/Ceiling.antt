-- ===== src/Timeout/Ceiling.antt =====
-- timeout.go: what a call with a timeout returns, and when.
use r8e.Prelude.{
  ℕ, ◌≤◌, ◌^◌, ◌≡◌, refl, sym, ◌∙◌, subst, Bool, true, false, not, ◌&&◌, Option, none, some, arith,
  ◌⊎◌, inl, inr, Option-cases,
}
use r8e.Prelude.Float.{Float, FloatLaws, FloatExact}
use r8e.Errors.{Error, sentinel, err_timeout}
use r8e.Retry.{Result, ok, err}
use r8e.Estimator.{Estimator, compute, record_result}
use r8e.Estimator.Clamp.{compute-bounds}
use r8e.Timeout.{Surroundings, Run, before, before_any, do_timeout, adaptive_timeout_call}

-- The context does not end before the time.
abbrev pub Outlives : Option ℕ → ℕ → Type 0
Outlives none t = Unit
Outlives (some c) t = t ≤ c

-- How a call with a timeout ends: at once, with the result, by the timeout or with the context.
pub data Ending {ℓ} {T : Type ℓ} (env : Surroundings T) (timeout : ℕ) : Run T → Type ℓ where
  at_once :
      (e : Error)
      → env.ended ≡ some e
      → Ending env timeout (record { result = err e; finished_at = 0; on_timeout = false })
  in_time :
      env.ended ≡ none
      → env.takes ≤ timeout
      → Outlives env.cancelled_at env.takes
      → Ending env timeout
          (record { result = env.returned; finished_at = env.takes; on_timeout = false })
  timed_out :
      env.ended ≡ none
      → timeout ≤ env.takes
      → Outlives env.cancelled_at timeout
      → Ending env timeout
          (record { result = err (sentinel err_timeout); finished_at = timeout; on_timeout = true })
  cancelled :
      (c : ℕ)
      → env.ended ≡ none
      → env.cancelled_at ≡ some c
      → c ≤ timeout
      → c ≤ env.takes
      → Ending env timeout
          (record { result = err env.context_error; finished_at = c; on_timeout = false })

pub before_cases :
    (tie : Bool) (a b : ℕ)
    → ((before tie a b ≡ true) × (a ≤ b)) ⊎ ((before tie a b ≡ false) × (b ≤ a))
unfolding before
before_cases tie a b = ground arith

pub before_any_cases :
    (tie : Bool) (a : ℕ) (c : Option ℕ)
    → ((before_any tie a c ≡ true) × Outlives c a)
      ⊎ ((d : ℕ) × (c ≡ some d) × (before_any tie a c ≡ false) × (d ≤ a))
unfolding before_any
before_any_cases tie a none = inl (refl, tt)
before_any_cases tie a (some c) = elim (before_cases tie a c) [
  | inl (t, h) ↦ inl (t, h)
  | inr (f, h) ↦ inr (c, refl, f, h)
]

-- The function has not returned before the timeout or the context's end.
abbrev Late : Option ℕ → ℕ → ℕ → Type 0
Late c takes timeout = (timeout ≤ takes) ⊎ ((d : ℕ) × (c ≡ some d) × (d ≤ takes))

Late-timeout :
    (c : Option ℕ) (takes timeout : ℕ) → Late c takes timeout → Outlives c timeout → timeout ≤ takes
Late-timeout c takes timeout (inl h) out = h
Late-timeout none takes timeout (inr (d, e, h)) out = grind (arith, e)
Late-timeout (some b) takes timeout (inr (d, e, h)) out = grind (arith, e, h, out)

Late-cancelled :
    (c : Option ℕ) (d takes timeout : ℕ)
    → Late c takes timeout
    → c ≡ some d
    → d ≤ timeout
    → d ≤ takes
Late-cancelled c d takes timeout (inl h) e k = omega (arith, h, k)
Late-cancelled c d takes timeout (inr (b, f, h)) e k = grind (arith, sym e ∙ f, h)

stopped {ℓ} :
    {T : Type ℓ} (env : Surroundings T) (timeout : ℕ)
    → env.ended ≡ none
    → (before env.over_timeout env.takes timeout
        && before_any env.over_end env.takes env.cancelled_at)
      ≡ false
    → Late env.cancelled_at env.takes timeout
    → Ending env timeout (do_timeout env timeout)
unfolding do_timeout
stopped env timeout h f late =
    elim (before_any_cases (not env.ends_late) timeout env.cancelled_at) [
      | inl (u, out) ↦
          subst (Ending env timeout) (sym (rw (h, f, u) refl))
            (timed_out h (Late-timeout _ _ timeout late out) out)
      | inr (c, e, u, le) ↦
          subst (Ending env timeout) (sym (rw (h, f, u, e) refl))
            (cancelled c h e le (Late-cancelled _ c _ timeout late e le))
    ]

-- A call with a timeout ends in one of these ways.
pub do_timeout-Ending {ℓ} :
    {T : Type ℓ} (env : Surroundings T) (timeout : ℕ) → Ending env timeout (do_timeout env timeout)
unfolding do_timeout
do_timeout-Ending env timeout = elim (Option-cases env.ended) [
  | inr (e, h) ↦ subst (Ending env timeout) (sym (rw h refl)) (at_once e h)
  | inl h ↦ elim (before_cases env.over_timeout env.takes timeout) [
    | inl (t, le) ↦ elim (before_any_cases env.over_end env.takes env.cancelled_at) [
      | inl (u, out) ↦ subst (Ending env timeout) (sym (rw (h, t, u) refl)) (in_time h le out)
      | inr (c, e, u, first) ↦ stopped env timeout h (simp (t, u) refl) (inr (c, e, first))
    ]
    | inr (t, le) ↦ stopped env timeout h (simp t refl) (inl le)
  ]
]

Ending-finished {ℓ} :
    {T : Type ℓ} (env : Surroundings T) (timeout : ℕ) (run : Run T)
    → Ending env timeout run
    → run.finished_at ≤ timeout
Ending-finished env timeout _ (at_once e h) = omega arith
Ending-finished env timeout _ (in_time h le out) = le
Ending-finished env timeout _ (timed_out h le out) = omega arith
Ending-finished env timeout _ (cancelled c h e le k) = le

module _ (fl : Float) (laws : FloatLaws fl) (exact : FloatExact fl) where
  recorded {ℓ} :
      {T : Type ℓ} (e : Estimator fl) (now elapsed : ℕ) (r : Result T)
      → (record_result fl e now elapsed r ≡ e) ⊎ ((v : T) × (r ≡ ok v))
  unfolding record_result
  recorded e now elapsed (ok v) = inr (v, refl)
  recorded e now elapsed (err x) = inl refl

  -- A call under an adaptive timeout, with durations of at most 2 ^ 53 ns, is over at the ceiling at the
  -- latest, and unless it succeeds its latency is not observed.
  pub adaptive_timeout_call-finished {ℓ} :
      {T : Type ℓ} (env : Surroundings T) (e : Estimator fl) (start ceiling : ℕ)
      → ceiling ≤ 2 ^ 53
      → e.cfg.floor ≤ 2 ^ 53
      → let (run, after) = adaptive_timeout_call fl env e start ceiling in
        (run.finished_at ≤ ceiling)
        × ((after ≡ (compute fl e start ceiling).1) ⊎ ((v : T) × (run.result ≡ ok v)))
  unfolding adaptive_timeout_call
  adaptive_timeout_call-finished env e start ceiling b c =
      let (timeout, computed) = compute fl e start ceiling in
      let run = do_timeout env timeout in
      let ended = Ending-finished env timeout run (do_timeout-Ending env timeout) in
      let (within, over) = compute-bounds fl laws exact e start ceiling b c in
      (omega (arith, ended, within), recorded computed _ run.finished_at run.result)
