-- ===== src/TimeBudget/Deadlines.antt =====
-- timebudget.go: the deadlines that a call under a time budget sees.
use r8e.Prelude.{
  ℕ, ◌+◌, ◌≡◌, refl, sym, subst, ap, ◌∙◌, ◌⊎◌, Bool, true, false, Option, none, some, min, leb,
  arith, inl, inr, Bool-cases, Option-cases, if◌then◌else◌,
}
use r8e.Errors.{Error, sentinel, joined, err_time_budget_exceeded, context_deadline_exceeded}
use r8e.Retry.{Result, ok, err}
use r8e.TimeBudget.{
  Context, TimeBudgetState, BudgetDeadlineCtx, Run, During, Signal, timer_fires, is_done,
  parent_done, parent_after, watch, is_error, exceeds_budget, tighten_to_inbound,
  attach_time_budget, cancel, new_budget_deadline_ctx, as_context, budget_deadline_fired,
  after_signal, apply_hard_deadline, time_budget_call,
}

-- The earlier of a deadline and another one, if there is such a one.
abbrev pub earliest : ℕ → Option ℕ → ℕ
earliest d none = d
earliest d (some other) = min d other

-- Whether a budget is spent when the call returns: it was at the start, or its timer has fired since.
abbrev pub is_spent : ℕ → ℕ → Option Signal → Bool
is_spent end now (some timer_fires) = true
is_spent end now (some is_done) = leb end now
is_spent end now (some (parent_done e)) = leb end now
is_spent end now none = leb end now

-- Why a result is passed on as it is: no deadline is propagated, the call succeeded, the caller's context has
-- ended, the budget is not spent, or the error says already that it is.
pub data Kept {ℓ} {T : Type ℓ} (propagates : Bool) (parent : Option Error) (spent : Bool)
    : Result T → Type ℓ where
  unpropagated : (r : Result T) → propagates ≡ false → Kept propagates parent spent r
  succeeded : (v : T) → Kept propagates parent spent (ok v)
  parent_ended : (r : Result T) (e : Error) → parent ≡ some e → Kept propagates parent spent r
  in_time : (r : Result T) → spent ≡ false → Kept propagates parent spent r
  marked : (e : Error) → is_error exceeds_budget e ≡ true → Kept propagates parent spent (err e)

-- What a call returns for the result of the function that it wraps.
pub data Outcome {ℓ} {T : Type ℓ} (propagates : Bool) (parent : Option Error) (spent : Bool)
    : Result T → Run T → Type ℓ where
  passed :
      (r : Result T)
      → Kept propagates parent spent r
      → Outcome propagates parent spent r (record { result = r; on_time_budget_exceeded = false })
  exceeded :
      (e : Error)
      → propagates ≡ true
      → parent ≡ none
      → spent ≡ true
      → is_error exceeds_budget e ≡ false
      → Outcome propagates parent spent (err e) (record {
        result = err (joined (sentinel err_time_budget_exceeded) e);
        on_time_budget_exceeded = true;
      })

pub tighten_to_inbound-earliest :
    (ctx : Context) (d : ℕ) → tighten_to_inbound ctx d ≡ earliest d ctx.deadline
unfolding tighten_to_inbound
tighten_to_inbound-earliest ctx d = elim (Option-cases ctx.deadline) [
  | inl e ↦ rw e refl
  | inr (i, e) ↦ rw e (ground arith)
]

cancel_keeps :
    (c : BudgetDeadlineCtx) (e : Error)
    → ((cancel c e).parent ≡ c.parent) × ((cancel c e).deadline ≡ c.deadline)
unfolding cancel
cancel_keeps c e = elim (Option-cases c.error) [
  | inl h ↦ rw h (refl, refl)
  | inr (x, h) ↦ rw h (refl, refl)
]

new_budget_deadline_ctx_keeps :
    (ctx : Context) (now d : ℕ)
    → let c = (new_budget_deadline_ctx ctx now d).0 in
      (c.parent ≡ ctx) × (c.deadline ≡ earliest d ctx.deadline)
unfolding new_budget_deadline_ctx cancel
new_budget_deadline_ctx_keeps ctx now d = elim (Option-cases ctx.ended) [
  | inr (e, h) ↦ rw h (refl, tighten_to_inbound-earliest ctx d)
  | inl h ↦ elim (Bool-cases (leb d now)) [
    | inl t ↦ rw (h, t) (refl, tighten_to_inbound-earliest ctx d)
    | inr f ↦ rw (h, f) (refl, tighten_to_inbound-earliest ctx d)
  ]
]

-- The end of applyHardDeadline.
attributed {ℓ} : {T : Type ℓ} → Bool → Result T → Run T
attributed fired returned =
    if fired
    then elim returned [
      | ok v ↦ record { result = ok v; on_time_budget_exceeded = true }
      | err e ↦ record {
        result = err (joined (sentinel err_time_budget_exceeded) e);
        on_time_budget_exceeded = true;
      }
    ]
    else record { result = returned; on_time_budget_exceeded = false }

-- Under a live caller, the deadline context has an error when the budget is spent, that of a deadline.
after_signal-spent :
    (ctx : Context) (now d : ℕ) (signal : Option Signal) (ends : Option Error)
    → ctx.ended ≡ none
    → parent_after none signal ends ≡ none
    → ((is_spent d now signal ≡ true)
        × (after_signal (new_budget_deadline_ctx ctx now d) signal
            ≡ some (sentinel context_deadline_exceeded)))
      ⊎ ((is_spent d now signal ≡ false)
          × (after_signal (new_budget_deadline_ctx ctx now d) signal ≡ none))
unfolding new_budget_deadline_ctx cancel watch
after_signal-spent ctx now d none ends h p = elim (Bool-cases (leb d now)) [
  | inl t ↦ inl (t, rw (h, t) refl)
  | inr f ↦ inr (f, rw (h, f) refl)
]
after_signal-spent ctx now d (some timer_fires) ends h p = elim (Bool-cases (leb d now)) [
  | inl t ↦ inl (refl, rw (h, t) refl)
  | inr f ↦ inl (refl, rw (h, f) refl)
]
after_signal-spent ctx now d (some is_done) ends h p = elim (Bool-cases (leb d now)) [
  | inl t ↦ inl (t, rw (h, t) refl)
  | inr f ↦ inr (f, rw (h, f) refl)
]
after_signal-spent ctx now d (some (parent_done e)) ends h p = absurd (cc p)

attributed-Outcome {ℓ} :
    {T : Type ℓ} (parent hard : Option Error) (spent : Bool) (r : Result T)
    → (parent ≡ none
        → ((spent ≡ true) × (hard ≡ some (sentinel context_deadline_exceeded)))
          ⊎ ((spent ≡ false) × (hard ≡ none)))
    → Outcome true parent spent r (attributed (budget_deadline_fired parent hard r) r)
unfolding budget_deadline_fired attributed is_error
attributed-Outcome parent hard spent (ok v) h = passed (ok v) (succeeded v)
attributed-Outcome (some p) hard spent (err e) h = passed (err e) (parent_ended (err e) p refl)
attributed-Outcome none hard spent (err e) h = elim (h refl) [
  | inr (f, n) ↦ rw n (passed (err e) (in_time (err e) f))
  | inl (t, d) ↦ elim (Bool-cases (is_error exceeds_budget e)) [
    | inl m ↦ rw (d, m) (passed (err e) (marked e m))
    | inr m ↦ rw (d, m) (exceeded e refl refl t m)
  ]
]

hard-Outcome {ℓ} :
    {T : Type ℓ} (ctx : Context) (now d : ℕ) (during : During) (r : Result T)
    → let parent = parent_after ctx.ended during.signal during.parent_ends in
      let hard =
        after_signal (new_budget_deadline_ctx (attach_time_budget ctx d) now d) during.signal in
      Outcome true parent
        (is_spent d now during.signal)
        r
        (attributed (budget_deadline_fired parent hard r) r)
unfolding attach_time_budget
hard-Outcome ctx now d during r = attributed-Outcome _ _ _ r (λ live.
    elim (Option-cases ctx.ended) [
      | inl h ↦
          after_signal-spent (attach_time_budget ctx d) now d during.signal during.parent_ends h (
            sym (ap (λ (o : Option Error). parent_after o during.signal during.parent_ends) h)
            ∙ live)
      | inr (e, h) ↦ absurd (
          cc (
            sym (ap (λ (o : Option Error). parent_after o during.signal during.parent_ends) h)
            ∙ live))
    ])

hard_context {ℓ} :
    {T : Type ℓ} (ctx : Context) (next : Context → Result T) (now deadline end : ℕ)
    (during : During)
    → deadline ≡ end
    → let parent = parent_after ctx.ended during.signal during.parent_ends in
      (c : Context) × (c.budget ≡ some end)
      × (c.deadline ≡ some (earliest end ctx.deadline))
      × Outcome true parent
          (is_spent end now during.signal)
          (next c)
          (apply_hard_deadline ctx next now deadline during)
unfolding apply_hard_deadline attributed as_context attach_time_budget
hard_context ctx next now deadline end during same =
    let parent = parent_after ctx.ended during.signal during.parent_ends in
    let hard = new_budget_deadline_ctx (attach_time_budget ctx deadline) now deadline in
    let (kept, at) = new_budget_deadline_ctx_keeps (attach_time_budget ctx deadline) now deadline in
    (
      as_context hard.0,
      ap (λ (c : Context). c.budget) kept ∙ ap some same,
      ap some (at ∙ ap (λ (d : ℕ). earliest d ctx.deadline) same),
      subst
          (λ (d : ℕ).
            Outcome true parent (is_spent d now during.signal) (next (as_context hard.0))
              (apply_hard_deadline ctx next now deadline during))
          same (hard-Outcome ctx now deadline during (next (as_context hard.0))),
    )

-- The call sees a context whose budget ends after the configured time, or with an inbound deadline that it
-- respects and that is earlier; the deadline that is propagated is the earlier of this and the inbound one.
-- Its error becomes that of the budget, once, when a deadline is propagated, the budget was spent at the
-- start or its timer has fired, the caller's context is still live, and the error is not that of the budget
-- yet; in every other case the result is passed on.
pub time_budget_call-context {ℓ} :
    {T : Type ℓ} (state : TimeBudgetState) (ctx : Context) (next : Context → Result T) (now : ℕ)
    (during : During)
    → let due = now + state.budget in
      let end = if state.respect_inbound_deadline then earliest due ctx.deadline else due in
      let parent = parent_after ctx.ended during.signal during.parent_ends in
      (c : Context) × (c.budget ≡ some end)
      × (c.deadline
          ≡ (if state.propagate_deadline then some (earliest end ctx.deadline) else ctx.deadline))
      × Outcome state.propagate_deadline parent
          (is_spent end now during.signal)
          (next c)
          (time_budget_call state ctx next now during)
unfolding time_budget_call
time_budget_call-context state ctx next now during =
    let due = now + state.budget in
    let deadline = if state.respect_inbound_deadline then tighten_to_inbound ctx due else due in
    let end =
      ap (λ (d : ℕ). if state.respect_inbound_deadline then d else due)
        (tighten_to_inbound-earliest ctx due) in
    elim (Bool-cases state.propagate_deadline) [
      | inr f ↦
          rw f (attach_time_budget ctx deadline, ap some end, refl, passed _ (unpropagated _ refl))
      | inl t ↦ rw t (hard_context ctx next now deadline _ during end)
    ]
