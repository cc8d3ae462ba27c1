-- ===== src/ConcurrencyBudget/Permits.antt =====
-- concurrencybudget.go: the counters against the executions and attempts that are really in flight,
-- over any order of their calls.
use r8e.Prelude.{
  ℕ, ◌+◌, ◌-◌, ◌≤◌, ◌<◌, ◌≡◌, true, false, Option, none, some, List, ◌⊎◌, max, arith, if◌then◌else◌,
}
use r8e.Prelude.Float.{Float}
use r8e.ConcurrencyBudget.{
  ConcurrencyBudget, ConcurrencyBudgetOption, new_concurrency_budget, reconfigure, limit_locked,
  enter, exit, try_acquire, release,
}

module _ (fl : Float) where
  -- The budget, the executions in flight and the attempts that hold a permit.
  pub record System : Type 0 where
    pub budget : ConcurrencyBudget fl
    pub running : ℕ
    pub held : ℕ

  abbrev with_budget : System → Option (ConcurrencyBudget fl) → System
  with_budget s none = s
  with_budget s (some b) = record s { budget = b }

  pub data Step : System → System → Type 0 where
    enters :
        (s : System)
        → Step s (record (with_budget s (enter fl (some s.budget))) { running = s.running + 1 })
    exits :
        (s : System)
        → 0 < s.running
        → Step s (record (with_budget s (exit fl (some s.budget))) { running = s.running - 1 })
    acquires :
        (s : System)
        → Step s (record (with_budget s (try_acquire fl (some s.budget)).0) {
          held = if (try_acquire fl (some s.budget)).1 then s.held + 1 else s.held;
        })
    releases :
        (s : System)
        → 0 < s.held
        → Step s (record (with_budget s (release fl (some s.budget))) { held = s.held - 1 })
    reconfigures :
        (s : System) (opts : List (ConcurrencyBudgetOption fl))
        → Step s (record s { budget = reconfigure fl s.budget opts })

  pub data Reach : System → Type 0 where
    start :
        (opts : List (ConcurrencyBudgetOption fl))
        → Reach (record { budget = new_concurrency_budget fl opts; running = 0; held = 0 })
    later : {s t : System} → Reach s → Step s t → Reach t

  pub record Counted (s : System) : Type 0 where
    pub executions_counted : s.budget.executions ≡ s.running
    pub permits_counted : s.budget.in_use ≡ s.held

  Step-Counted : {s t : System} → Step s t → Counted s → Counted t
  unfolding enter exit try_acquire release reconfigure
  Step-Counted (enters s) v = ground arith
  Step-Counted (exits s h) v = ground arith
  Step-Counted (acquires s) v = ground arith
  Step-Counted (releases s h) v = ground arith
  Step-Counted (reconfigures s opts) v = ground arith

  -- In every order of the calls the budget counts just the executions and the attempts in flight, so
  -- the floors at zero are never met.
  pub Reach-Counted : {s : System} → Reach s → Counted s
  unfolding new_concurrency_budget
  Reach-Counted (start opts) = ground arith
  Reach-Counted (later r st) = Step-Counted st (Reach-Counted r)

  -- A permit is given exactly when fewer are held than the limit for the executions in flight, and
  -- then one more is held.
  pub try_acquire_of_Reach :
      {s : System}
      → Reach s
      → let limit =
          max s.budget.min_concurrency
            (fl.to_int (fl.mul s.budget.max_ratio (fl.of_int s.running))) in
        ((s.held < limit) × ((try_acquire fl (some s.budget)).1 ≡ true))
        ⊎ ((limit ≤ s.held) × (try_acquire fl (some s.budget) ≡ (some s.budget, false)))
  unfolding try_acquire limit_locked
  try_acquire_of_Reach {s} r =
      let v = Reach-Counted r in ground (arith, v.executions_counted, v.permits_counted)
