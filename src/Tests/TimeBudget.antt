-- ===== src/Tests/TimeBudget.antt =====
-- timebudget.go at concrete inputs.
use r8e.Prelude.{ℕ, ◌≡◌, refl, true, none, some, arith}
use r8e.Errors.{sentinel, foreign, context_deadline_exceeded}
use r8e.Retry.{Result, ok, err}
use r8e.TimeBudget.{
  Context, TimeBudgetState, During, timer_fires, time_budget_call, new_budget_deadline_ctx, watch,
  cancel,
}
use r8e.TimeBudget.Deadlines.{Outcome, time_budget_call-context}
use r8e.TimeBudget.Causes.{
  System, Reach, created, later, ticks, fires, is_cancelled, Caused, ArmedFor, Reach-Caused,
}

abbrev state : TimeBudgetState
state = record { budget = 50; propagate_deadline = true; respect_inbound_deadline = true }

abbrev inbound : Context
inbound = record { ended = none; deadline = some 130; budget = none }

-- The inner call fails as it sees a deadline, and its timer has fired.
abbrev inner : Context → Result ℕ
inner c = elim c.deadline [ some d ↦ err (foreign d) | none ↦ ok 0 ]

abbrev during : During
during = record { signal = some timer_fires; parent_ends = none }

time_budget_call-context_example :
    (c : Context) × (c.budget ≡ some 130)
    × (c.deadline ≡ some 130)
    × Outcome true none true (inner c) (time_budget_call state inbound inner 100 during)
time_budget_call-context_example = time_budget_call-context state inbound inner 100 during

abbrev spent : System
spent = record {
  ctx = record {
    parent = inbound;
    error = some (sentinel context_deadline_exceeded);
    deadline = 120;
  };
  armed = some 120;
  parent_ended = none;
  cancelled = true;
  due = 120;
  now = 125;
}

spent_reached : Reach spent
unfolding new_budget_deadline_ctx watch cancel
spent_reached =
    later (later (later (created inbound 120 100) (ticks _ 25)) (fires _ 120 refl (omega arith)))
      (is_cancelled _)

Reach-Caused_example :
    Caused none true 120 125 (some (sentinel context_deadline_exceeded)) × ArmedFor 120 (some 120)
Reach-Caused_example = Reach-Caused spent_reached
