-- ===== src/Tests/Metrics.antt =====
-- hooks.go and metrics.go at concrete inputs.
use r8e.Prelude.{ℕ, ◌+◌, ◌≡◌, refl, true, false, List, [], ◌∷◌}
use r8e.Metrics.{
  Hook, on_retry, on_timeout, on_bulkhead_queued, timeouts, Hooks, PolicyMetrics, emit_all,
}
use r8e.Metrics.Counts.{Occurs, wanted, emit_all-counts}

-- The caller listens to retries and to the queue of the bulkhead.
abbrev user : Hooks
user on_retry = true
user on_bulkhead_queued = true
user _ = false

abbrev zeros : PolicyMetrics
zeros c = 0

abbrev events : List (Hook × ℕ)
events = (on_timeout, 0) ∷ (on_retry, 1) ∷ (on_bulkhead_queued, 0) ∷ (on_timeout, 0) ∷ []

emit_all-counts_example :
    ((n : ℕ) × Occurs timeouts events n
      × ((emit_all zeros user events).0 timeouts ≡ zeros timeouts + n))
    × ((emit_all zeros user events).1 ≡ wanted user events)
emit_all-counts_example = emit_all-counts zeros user events timeouts

two_timeouts : (emit_all zeros user events).0 timeouts ≡ 2
unfolding emit_all
two_timeouts = refl
