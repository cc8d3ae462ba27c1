-- ===== src/TimeBudget.antt =====
-- timebudget.go: the time budget and the deadline that it propagates. A context is its error, its deadline
-- and the value of the budget's key. The goroutine of `watch` is a step for the one signal it receives.
-- A remaining time below zero is zero here: its readers compare it with durations from zero on.
pub mod Deadlines
pub mod Causes
use r8e.Prelude.{
  ℕ, ◌+◌, ◌-◌, Bool, true, false, not, ◌&&◌, ◌||◌, Option, none, some, ltb, leb, if◌then◌else◌,
}
use mathlib.Core.Option.{map}
use r8e.Errors.{
  Sentinel, Error, sentinel, transient_error, permanent_error, retry_after_error, joined,
  err_time_budget_exceeded, context_canceled, context_deadline_exceeded,
}
use r8e.Retry.{Result, ok, err}

pub record Context : Type 0 where
  pub ended : Option Error
  pub deadline : Option ℕ
  pub budget : Option ℕ

pub record TimeBudgetState : Type 0 where
  pub budget : ℕ
  pub propagate_deadline : Bool
  pub respect_inbound_deadline : Bool

-- errors.Is, with the targets that satisfy the test.
unfoldable pub is_error : (Sentinel → Bool) → Error → Bool
is_error target (sentinel s) = target s
is_error target (transient_error e) = is_error target e
is_error target (permanent_error e) = is_error target e
is_error target (retry_after_error e after) = is_error target e
is_error target (joined a b) = is_error target a || is_error target b
is_error target _ = false

abbrev pub exceeds_budget : Sentinel → Bool
exceeds_budget err_time_budget_exceeded = true
exceeds_budget _ = false

abbrev pub exceeds_deadline : Sentinel → Bool
exceeds_deadline context_deadline_exceeded = true
exceeds_deadline _ = false

unfoldable pub tighten_to_inbound : Context → ℕ → ℕ
tighten_to_inbound ctx deadline = elim ctx.deadline [
  | some inbound ↦ if ltb inbound deadline then inbound else deadline
  | none ↦ deadline
]

unfoldable pub attach_time_budget : Context → ℕ → Context
attach_time_budget ctx deadline = record ctx { budget = some deadline }

unfoldable pub time_budget_remaining : Context → ℕ → Option ℕ
time_budget_remaining ctx now = map (λ deadline. deadline - now) ctx.budget

pub record BudgetDeadlineCtx : Type 0 where
  pub parent : Context
  pub error : Option Error
  pub deadline : ℕ

-- The first cause wins. `done` is closed when there is one.
unfoldable pub cancel : BudgetDeadlineCtx → Error → BudgetDeadlineCtx
cancel c e = elim c.error [ some first ↦ c | none ↦ record c { error = some e } ]

-- The duration of the timer that is watched, if any is.
unfoldable pub new_budget_deadline_ctx : Context → ℕ → ℕ → BudgetDeadlineCtx × Option ℕ
unfolding cancel tighten_to_inbound
new_budget_deadline_ctx parent now deadline =
    let bctx : BudgetDeadlineCtx = record {
      parent = parent;
      error = none;
      deadline = tighten_to_inbound parent deadline;
    } in
    elim parent.ended [
      | some e ↦ (cancel bctx e, none)
      | none ↦
          if leb deadline now
          then (cancel bctx (sentinel context_deadline_exceeded), none)
          else (bctx, some (deadline - now))
    ]

pub data Signal : Type 0 where
  timer_fires is_done : Signal
  parent_done : Error → Signal

unfoldable pub watch : BudgetDeadlineCtx → Signal → BudgetDeadlineCtx
unfolding cancel
watch c timer_fires = cancel c (sentinel context_deadline_exceeded)
watch c (parent_done e) = cancel c e
watch c is_done = c

-- Err, Deadline and Value.
unfoldable pub as_context : BudgetDeadlineCtx → Context
as_context c = record { ended = c.error; deadline = some c.deadline; budget = c.parent.budget }

-- Err of the parent, then of the context, and what the call returned.
unfoldable pub budget_deadline_fired {ℓ} :
    {T : Type ℓ} → Option Error → Option Error → Result T → Bool
unfolding is_error
budget_deadline_fired parent hard (ok v) = false
budget_deadline_fired (some p) hard (err e) = false
budget_deadline_fired none none (err e) = false
budget_deadline_fired none (some h) (err e) =
    is_error exceeds_deadline h && not (is_error exceeds_budget e)

pub record Run {ℓ} (T : Type ℓ) : Type ℓ where
  pub result : Result T
  pub on_time_budget_exceeded : Bool

-- The signal that the watcher has received when `next` returns, and the error with which the parent has
-- ended by then, for a parent that was live at the start and whose end the watcher has not received.
pub record During : Type 0 where
  pub signal : Option Signal
  pub parent_ends : Option Error

-- Err of the parent when `next` returns, for Err at the start: an ended context stays so.
abbrev pub parent_after : Option Error → Option Signal → Option Error → Option Error
parent_after (some e) signal ends = some e
parent_after none (some (parent_done e)) ends = some e
parent_after none (some timer_fires) ends = ends
parent_after none (some is_done) ends = ends
parent_after none none ends = ends

-- The context's error when `next` returns: a signal reaches it only if it is watched.
abbrev pub after_signal : BudgetDeadlineCtx × Option ℕ → Option Signal → Option Error
after_signal (c, none) signal = c.error
after_signal (c, some timer) none = c.error
after_signal (c, some timer) (some s) = (watch c s).error

unfoldable pub apply_hard_deadline {ℓ} :
    {T : Type ℓ} → Context → (Context → Result T) → ℕ → ℕ → During → Run T
unfolding attach_time_budget new_budget_deadline_ctx as_context
apply_hard_deadline ctx next now deadline during =
    let hard = new_budget_deadline_ctx (attach_time_budget ctx deadline) now deadline in
    let returned = next (as_context hard.0) in
    let parent = parent_after ctx.ended during.signal during.parent_ends in
    if budget_deadline_fired parent (after_signal hard during.signal) returned
    then elim returned [
      | ok v ↦ record { result = ok v; on_time_budget_exceeded = true }
      | err e ↦ record {
        result = err (joined (sentinel err_time_budget_exceeded) e);
        on_time_budget_exceeded = true;
      }
    ]
    else record { result = returned; on_time_budget_exceeded = false }

-- The middleware of the time budget.
unfoldable pub time_budget_call {ℓ} :
    {T : Type ℓ} → TimeBudgetState → Context → (Context → Result T) → ℕ → During → Run T
unfolding tighten_to_inbound attach_time_budget apply_hard_deadline
time_budget_call state ctx next now during =
    let due = now + state.budget in
    let deadline = if state.respect_inbound_deadline then tighten_to_inbound ctx due else due in
    if not state.propagate_deadline
    then record { result = next (attach_time_budget ctx deadline); on_time_budget_exceeded = false }
    else apply_hard_deadline ctx next now deadline during
