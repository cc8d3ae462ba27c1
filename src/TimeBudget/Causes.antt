-- ===== src/TimeBudget/Causes.antt =====
-- timebudget.go: why a deadline context has ended, over every interleaving of the clock, the timer, the
-- caller's context and the cancellation.
use r8e.Prelude.{
  ℕ, ◌+◌, ◌-◌, ◌≤◌, Bool, true, false, ◌≡◌, refl, subst, Option, none, some, arith, ◌⊎◌, inl, inr,
  leb, leb→le, Bool-cases, Option-cases,
}
use r8e.Errors.{Error, sentinel, context_canceled, context_deadline_exceeded}
use r8e.TimeBudget.{
  Context, BudgetDeadlineCtx, cancel, new_budget_deadline_ctx, watch, timer_fires, parent_done,
}

-- A deadline context for a budget that ends at `due`, when the timer that its watcher waits for is to fire,
-- if there is a watcher, what the caller's context has come to, whether the cancel function was called, and
-- the time.
pub record System : Type 0 where
  pub ctx : BudgetDeadlineCtx
  pub armed : Option ℕ
  pub parent_ended : Option Error
  pub cancelled : Bool
  pub due : ℕ
  pub now : ℕ

-- When a timer of the duration fires.
abbrev pub fires_at : ℕ → Option ℕ → Option ℕ
fires_at now none = none
fires_at now (some duration) = some (now + duration)

pub data Step : System → System → Type 0 where
  ticks : (s : System) (d : ℕ) → Step s (record s { now = s.now + d })
  parent_ends :
      (s : System) (e : Error) → s.parent_ended ≡ none → Step s (record s { parent_ended = some e })
  -- The watcher receives its timer's signal, at the time it is armed for or later, or that of the caller's
  -- context; or the cancel function is called.
  fires :
      (s : System) (t : ℕ)
      → s.armed ≡ some t
      → t ≤ s.now
      → Step s (record s { ctx = watch s.ctx timer_fires })
  follows :
      (s : System) (t : ℕ) (e : Error)
      → s.armed ≡ some t
      → s.parent_ended ≡ some e
      → Step s (record s { ctx = watch s.ctx (parent_done e) })
  is_cancelled :
      (s : System)
      → Step s (record s { ctx = cancel s.ctx (sentinel context_canceled); cancelled = true })

pub data Reach : System → Type 0 where
  created :
      (parent : Context) (due now : ℕ)
      → Reach (record {
        ctx = (new_budget_deadline_ctx parent now due).0;
        armed = fires_at now (new_budget_deadline_ctx parent now due).1;
        parent_ended = parent.ended;
        cancelled = false;
        due = due;
        now = now;
      })
  later : {s t : System} → Reach s → Step s t → Reach t

-- An error is that of the caller's context, of a cancellation that took place, or of the budget when it is
-- spent.
abbrev pub Caused : Option Error → Bool → ℕ → ℕ → Option Error → Type 0
Caused parent cancelled due now none = Unit
Caused parent cancelled due now (some e) =
    (parent ≡ some e)
    ⊎ ((e ≡ sentinel context_canceled) × (cancelled ≡ true))
    ⊎ ((e ≡ sentinel context_deadline_exceeded) × (due ≤ now))

-- The timer fires when the budget ends.
abbrev pub ArmedFor : ℕ → Option ℕ → Type 0
ArmedFor due none = Unit
ArmedFor due (some t) = t ≡ due

later-Caused :
    (parent : Option Error) (c : Bool) (due now d : ℕ) (o : Option Error)
    → Caused parent c due now o
    → Caused parent c due (now + d) o
later-Caused parent c due now d none h = tt
later-Caused parent c due now d (some e) (inl p) = inl p
later-Caused parent c due now d (some e) (inr (inl k)) = inr (inl k)
later-Caused parent c due now d (some e) (inr (inr (k, le))) = inr (inr (k, omega (arith, le)))

ended-Caused :
    (x : Error) (c : Bool) (due now : ℕ) (o : Option Error)
    → Caused none c due now o
    → Caused (some x) c due now o
ended-Caused x c due now none h = tt
ended-Caused x c due now (some e) (inl p) = absurd (cc p)
ended-Caused x c due now (some e) (inr k) = inr k

cancelled-Caused :
    (parent : Option Error) (c : Bool) (due now : ℕ) (o : Option Error)
    → Caused parent c due now o
    → Caused parent true due now o
cancelled-Caused parent c due now none h = tt
cancelled-Caused parent c due now (some e) (inl p) = inl p
cancelled-Caused parent c due now (some e) (inr (inl (k, t))) = inr (inl (k, refl))
cancelled-Caused parent c due now (some e) (inr (inr k)) = inr (inr k)

cancel-Caused :
    (parent : Option Error) (b : Bool) (due now : ℕ) (c : BudgetDeadlineCtx) (e : Error)
    → Caused parent b due now c.error
    → Caused parent b due now (some e)
    → Caused parent b due now (cancel c e).error
unfolding cancel
cancel-Caused parent b due now c e h k = elim (Option-cases c.error) [
  | inl none_yet ↦ rw none_yet k
  | inr (first, same) ↦ rw same (subst (Caused parent b due now) same h)
]

new_budget_deadline_ctx-Caused :
    (parent : Context) (due now : ℕ)
    → Caused parent.ended false due now (new_budget_deadline_ctx parent now due).0.error
      × ArmedFor due (fires_at now (new_budget_deadline_ctx parent now due).1)
unfolding new_budget_deadline_ctx cancel
new_budget_deadline_ctx-Caused parent due now = elim (Option-cases parent.ended) [
  | inr (e, h) ↦ rw h (inl refl, tt)
  | inl h ↦ elim (Bool-cases (leb due now)) [
    | inl t ↦ rw (h, t) (inr (inr (refl, leb→le due now t)), tt)
    | inr f ↦ let late : now + (due - now) ≡ due = ground (arith, f) in rw (h, f) (tt, late)
  ]
]

-- The error has a cause, and the timer, if any, fires at the end of the budget.
abbrev pub CausedIn : System → Type 0
CausedIn s = Caused s.parent_ended s.cancelled s.due s.now s.ctx.error × ArmedFor s.due s.armed

Step-Caused : {s t : System} → Step s t → CausedIn s → CausedIn t
unfolding watch
Step-Caused (ticks s d) (h, v) =
    (later-Caused s.parent_ended s.cancelled s.due s.now d s.ctx.error h, v)
Step-Caused (parent_ends s x k) (h, v) = (
  ended-Caused x s.cancelled s.due s.now s.ctx.error
      (subst (λ (p : Option Error). Caused p s.cancelled s.due s.now s.ctx.error) k h),
  v,
)
Step-Caused (fires s t k le) (h, v) =
    let on_time = subst (ArmedFor s.due) k v in
    (
      cancel-Caused s.parent_ended s.cancelled s.due s.now s.ctx _ h
          (inr (inr (refl, omega (arith, on_time, le)))),
      v,
    )
Step-Caused (follows s t x k p) (h, v) =
    (cancel-Caused s.parent_ended s.cancelled s.due s.now s.ctx x h (inl p), v)
Step-Caused (is_cancelled s) (h, v) = (
  cancel-Caused s.parent_ended true s.due s.now s.ctx _
      (cancelled-Caused s.parent_ended s.cancelled s.due s.now s.ctx.error h)
      (inr (inl (refl, refl))),
  v,
)

-- In every reachable state a deadline context that has ended has a cause for its error: the caller's context
-- ended with it, or the cancel function was called, or the budget is spent; and a timer that is waited for
-- fires when the budget ends.
pub Reach-Caused : {s : System} → Reach s → CausedIn s
Reach-Caused (created parent due now) = new_budget_deadline_ctx-Caused parent due now
Reach-Caused (later r step) = Step-Caused step (Reach-Caused r)

-- A step never changes an error.
pub Step_keeps_error :
    {s t : System} → Step s t → (e : Error) → s.ctx.error ≡ some e → t.ctx.error ≡ some e
unfolding watch cancel
Step_keeps_error (ticks s d) e h = h
Step_keeps_error (parent_ends s x k) e h = h
Step_keeps_error (fires s t k le) e h = rw h refl
Step_keeps_error (follows s t x k p) e h = rw h refl
Step_keeps_error (is_cancelled s) e h = rw h refl
