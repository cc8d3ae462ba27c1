-- ===== src/Tests/Latency.antt =====
-- latency.go, percentile.go, timeout.go and hedge.go at concrete inputs, with numbers of thousandths.
use r8e.Prelude.{
  ℕ, ◌+◌, ◌*◌, ◌^◌, ◌≤◌, ◌≡◌, refl, true, false, Option, none, some, List, [], ◌∷◌, ◌⊎◌, ◌==◌,
  arith, max, if◌then◌else◌,
}
use r8e.Prelude.Thousandths.{thousandths, thousandths_laws, thousandths_exact}
use r8e.Errors.{foreign}
use r8e.Retry.{ok, err}
use r8e.Latency.{LatencyWindow, new_latency_window, quantile_snapshot}
use r8e.Latency.Samples.{observe_samples, samples_in}
use r8e.Latency.Quantile.{Least, enough, latency_of, quantile_snapshot-samples}
use r8e.Estimator.{Estimator, new_estimator, timeout_defaults, hedge_defaults, compute}
use r8e.ConcurrencyBudget.{ConcurrencyBudget, try_acquire}
use r8e.Timeout
use r8e.Timeout.{do_timeout, adaptive_timeout_call}
use r8e.Timeout.Ceiling.{Outlives, adaptive_timeout_call-finished}
use r8e.Hedge
use r8e.Hedge.{is_ok, do_hedge, settled, adaptive_hedge_call}
use r8e.Hedge.Race.{adaptive_hedge_call-finished}
use r8e.Hedge.Answers.{Answered, do_hedge-Answered}

abbrev window : LatencyWindow thousandths
window = new_latency_window thousandths

abbrev second : ℕ
second = 10 ^ 9

-- Three samples, one of which has left the window, and the median at 12 s.
abbrev samples : List (ℕ × ℕ)
samples = (11 * second, 4000000) ∷ (10 * second, 2000000) ∷ (1 * second, 9000000) ∷ []

quantile_snapshot-samples_example :
    (r : Option ℕ) × Least (enough thousandths window samples (12 * second) 500) window.size r
    × (quantile_snapshot thousandths (observe_samples thousandths window samples) (12 * second) 500
        ≡ (if samples_in thousandths window samples (12 * second) == 0 then (0, 0) else (
          latency_of thousandths window r,
          samples_in thousandths window samples (12 * second),
        )))
quantile_snapshot-samples_example =
    quantile_snapshot-samples thousandths samples (12 * second) 500
      (omega arith, (omega arith, (omega arith, tt)))

-- A call of 30 ms under a timeout of 20 ms.
abbrev slow : Timeout.Surroundings ℕ
slow = record {
  returned = ok 7;
  takes = 30000000;
  ended = none;
  cancelled_at = some 40000000;
  context_error = foreign 3;
  over_timeout = true;
  over_end = false;
  ends_late = false;
}

abbrev cold : Estimator thousandths
cold =
    new_estimator thousandths (timeout_defaults thousandths)
      (record { percentile = 0; multiplier = 0; floor = 5000000; min_samples = 0 })

adaptive_timeout_call-finished_example :
    let (run, after) = adaptive_timeout_call thousandths slow cold 0 20000000 in
    (run.finished_at ≤ 20000000)
    × ((after ≡ (compute thousandths cold 0 20000000).1) ⊎ ((v : ℕ) × (run.result ≡ ok v)))
unfolding new_estimator
adaptive_timeout_call-finished_example =
    adaptive_timeout_call-finished thousandths thousandths_laws thousandths_exact slow cold 0
      20000000 (omega arith) (omega arith)

-- A primary attempt of 30 ms, and a hedge of 2 ms after 20 ms.
abbrev raced : Hedge.Surroundings ℕ
raced = record {
  primary = err (foreign 1);
  primary_takes = 30000000;
  hedge = ok 8;
  hedge_takes = 2000000;
  ended = none;
  cancelled_at = some 40000000;
  context_error = foreign 3;
  budget_ends = some 25000000;
  over_timer = true;
  over_hedge = true;
  over_end = false;
}

abbrev permits : Option (ConcurrencyBudget thousandths)
permits = some (record { executions = 4; in_use = 1; max_ratio = 250; min_concurrency = 5 })

do_hedge-Answered_example :
    let run = do_hedge thousandths raced permits 20000000 in
    Answered thousandths raced 20000000 run × (settled thousandths raced run ≡ permits)
do_hedge-Answered_example = do_hedge-Answered thousandths raced permits 20000000

abbrev tail : Estimator thousandths
tail =
    new_estimator thousandths (hedge_defaults thousandths)
      (record { percentile = 0; multiplier = 0; floor = 0; min_samples = 0 })

adaptive_hedge_call-finished_example :
    let run = (adaptive_hedge_call thousandths raced permits tail 0 20000000).0 in
    ((is_ok raced.primary ≡ false) ⊎ (run.finished_at ≤ 30000000))
    × ((run.on_hedge_triggered ≡ false)
        ⊎ (is_ok raced.hedge ≡ false)
        ⊎ (run.finished_at ≤ 20000000 + 2000000))
    × (run.finished_at ≤ max 30000000 (20000000 + 2000000))
    × Outlives (some 40000000) run.finished_at
unfolding new_estimator
adaptive_hedge_call-finished_example =
    adaptive_hedge_call-finished thousandths thousandths_laws thousandths_exact raced permits tail 0
      20000000 (omega arith) (omega arith)

hedge_wins : (do_hedge thousandths raced permits 20000000).result ≡ ok 8
unfolding do_hedge try_acquire
hedge_wins = refl
