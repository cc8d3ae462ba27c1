-- ===== src/Hedge.antt =====
-- hedge.go: DoHedge, and the hedge of a policy. Times count from the start of the call. What the two
-- attempts return and when, and when the caller's context ends, are parameters, and so are the choices of
-- Go's select where two of these fall together.
pub mod Race
pub mod Answers
use r8e.Prelude.{
  ℕ, ◌+◌, Bool, true, false, not, ◌&&◌, ◌||◌, Option, none, some, leb, min, max, if◌then◌else◌,
}
use r8e.Prelude.Float.{Float}
use r8e.Errors.{Error}
use r8e.Retry.{Result, ok, err}
use r8e.Timeout.{before, before_any}
use r8e.ConcurrencyBudget.{ConcurrencyBudget, try_acquire, release}
use r8e.Estimator.{Estimator, compute, record_result}

pub record Surroundings {ℓ} (T : Type ℓ) : Type ℓ where
  pub primary : Result T
  pub primary_takes : ℕ
  -- The second attempt, and the time from its start.
  pub hedge : Result T
  pub hedge_takes : ℕ
  -- The error of the context before the call, then when the context ends and with which error.
  pub ended : Option Error
  pub cancelled_at : Option ℕ
  pub context_error : Error
  -- When the time budget ends, if there is one.
  pub budget_ends : Option ℕ
  -- Whether, at the same moment, the result of the primary attempt is taken before the timer and before
  -- that of the hedge, and whether results and the timer are taken before the context's end.
  pub over_timer : Bool
  pub over_hedge : Bool
  pub over_end : Bool

abbrev pub is_spent : Option ℕ → ℕ → Bool
is_spent none now = false
is_spent (some ends) now = leb ends now

abbrev pub is_ok {ℓ} : {T : Type ℓ} → Result T → Bool
is_ok (ok v) = true
is_ok (err e) = false

module _ {ℓ} {T : Type ℓ} (fl : Float) (env : Surroundings T) where
  open env use {
    primary, hedge, primary_takes, hedge_takes, cancelled_at, over_timer, over_hedge, over_end,
  }

  -- The budget is that at the return: the permit of a hedge is given back when the hedge's function ends.
  pub record Run : Type ℓ where
    pub result : Result T
    pub finished_at : ℕ
    pub budget : Option (ConcurrencyBudget fl)
    pub on_hedge_triggered : Bool
    pub on_hedge_won : Bool
    pub on_concurrency_budget_exceeded : Bool

  ended_at : ℕ → ℕ
  ended_at t = elim cancelled_at [ some c ↦ c | none ↦ t ]

  -- A result, or the context's error if it ends first.
  unfoldable pub answer : ℕ → Result T → Result T × ℕ
  unfolding before_any ended_at
  answer t r =
      if before_any over_end t cancelled_at then (r, t) else (err env.context_error, ended_at t)

  -- No hedge was launched, or it was not to be.
  unfoldable pub wait_for_primary : Option (ConcurrencyBudget fl) → Bool → Run
  unfolding answer
  wait_for_primary budget exceeded =
      let (result, at) = answer primary_takes primary in
      record {
        result = result;
        finished_at = at;
        budget = budget;
        on_hedge_triggered = false;
        on_hedge_won = false;
        on_concurrency_budget_exceeded = exceeded;
      }

  unfoldable pub hedged : Option (ConcurrencyBudget fl) → Bool → Result T × ℕ → Run
  hedged budget won (result, at) = record {
    result = result;
    finished_at = at;
    budget = budget;
    on_hedge_triggered = true;
    on_hedge_won = won;
    on_concurrency_budget_exceeded = false;
  }

  -- The first success, or the first error of two, of the results in the order in which they come. The
  -- hedge wins if it is the success, and is not cut off.
  unfoldable pub in_turn : Option (ConcurrencyBudget fl) → Bool → Result T → ℕ → Result T → ℕ → Run
  unfolding before_any answer hedged
  in_turn budget primary_first first first_at second second_at =
      let first_seen = before_any over_end first_at cancelled_at in
      let second_seen = before_any over_end second_at cancelled_at in
      if not first_seen || is_ok first
      then hedged budget (first_seen && not primary_first) (answer first_at first)
      else if is_ok second
      then hedged budget (second_seen && primary_first) (answer second_at second)
      else hedged budget false (answer second_at first)

  unfoldable pub wait_for_results : Option (ConcurrencyBudget fl) → ℕ → Run
  unfolding before in_turn
  wait_for_results budget delay =
      let hedge_at = delay + hedge_takes in
      if before over_hedge primary_takes hedge_at
      then in_turn budget true primary primary_takes hedge hedge_at
      else in_turn budget false hedge hedge_at primary primary_takes

  -- The delay has elapsed and the primary attempt still runs.
  unfoldable pub after_delay : Option (ConcurrencyBudget fl) → ℕ → Run
  unfolding wait_for_primary wait_for_results
  after_delay budget delay =
      let (acquired, permitted) = try_acquire fl budget in
      if is_spent env.budget_ends delay
      then wait_for_primary budget false
      else if not permitted
      then wait_for_primary acquired true
      else wait_for_results acquired delay

  unfoldable pub do_hedge : Option (ConcurrencyBudget fl) → ℕ → Run
  unfolding before before_any ended_at wait_for_primary after_delay
  do_hedge budget delay = elim env.ended [
    | some e ↦ record {
      result = err e;
      finished_at = 0;
      budget = budget;
      on_hedge_triggered = false;
      on_hedge_won = false;
      on_concurrency_budget_exceeded = false;
    }
    | none ↦
        if before over_timer primary_takes delay || not (before_any over_end delay cancelled_at)
        then wait_for_primary budget false
        else after_delay budget delay
  ]

  -- The budget when the function of the hedge, if there is one, has ended as well.
  unfoldable pub settled : Run → Option (ConcurrencyBudget fl)
  settled run = if run.on_hedge_triggered then release fl run.budget else run.budget

  -- The middleware of an adaptive hedge, called at the time `start`. The primary attempt is recorded if it
  -- has ended when the call returns; one that ends after that, uncancelled, is recorded then.
  unfoldable pub adaptive_hedge_call :
      Option (ConcurrencyBudget fl) → Estimator fl → ℕ → ℕ → Run × Estimator fl
  unfolding do_hedge
  adaptive_hedge_call budget e start ceiling =
      let (delay, computed) = compute fl e start ceiling in
      let run = do_hedge budget delay in
      let recorded = record_result fl computed (start + primary_takes) primary_takes primary in
      (run, if leb primary_takes run.finished_at then recorded else computed)
