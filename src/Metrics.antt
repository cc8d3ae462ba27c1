-- ===== src/Metrics.antt =====
-- hooks.go and metrics.go: the hooks of a policy, the counters behind its metrics, and the hooks that count.
-- A hook is called with arguments of the type A. Of the caller's hooks it is known which are set; what a call
-- leaves is its hook and its arguments.
pub mod Wiring
pub mod Counts
use r8e.Prelude.{
  ℕ, ◌+◌, Bool, true, false, Option, none, some, List, [], ◌∷◌, ◌++◌, ◌==◌, if◌then◌else◌,
}

pub data Hook : Type 0 where
  on_retry on_circuit_open on_circuit_close on_circuit_half_open on_circuit_ramping on_rate_limited
        on_bulkhead_full on_bulkhead_acquired on_bulkhead_released on_bulkhead_queued
        on_bulkhead_timeout on_codel_shed on_timeout on_hedge_triggered on_hedge_won
        on_fallback_used on_retry_budget_exceeded on_time_budget_exceeded on_coalesce_leader
        on_coalesce_follower on_cache_hit on_cache_miss on_cache_stored on_stale_served
        on_cache_refreshed on_concurrency_rejected on_concurrency_limit_changed on_throttled
        on_slo_shed on_rate_adapted on_slow_call_rate_exceeded on_panic
        on_concurrency_budget_exceeded on_chaos_injected :
      Hook

-- The fields of policyMetrics.
pub data Counter : Type 0 where
  retries timeouts circuit_opens circuit_closes circuit_half_opens circuit_ramps rate_limited
        bulkhead_rejected bulkhead_timeouts codel_shed hedges_triggered hedges_won fallbacks_used
        retry_budget_exceeded coalesce_leaders coalesce_followers concurrency_rejected throttled
        slo_shed rate_adaptations slow_call_rate_exceeded time_budget_exceeded cache_hits
        cache_misses cache_stores cache_stale_served cache_refreshes panics_recovered
        conc_budget_exceeded chaos_injected :
      Counter

-- The place of a counter in the struct.
unfoldable pub place : Counter → ℕ
place retries = 0
place timeouts = 1
place circuit_opens = 2
place circuit_closes = 3
place circuit_half_opens = 4
place circuit_ramps = 5
place rate_limited = 6
place bulkhead_rejected = 7
place bulkhead_timeouts = 8
place codel_shed = 9
place hedges_triggered = 10
place hedges_won = 11
place fallbacks_used = 12
place retry_budget_exceeded = 13
place coalesce_leaders = 14
place coalesce_followers = 15
place concurrency_rejected = 16
place throttled = 17
place slo_shed = 18
place rate_adaptations = 19
place slow_call_rate_exceeded = 20
place time_budget_exceeded = 21
place cache_hits = 22
place cache_misses = 23
place cache_stores = 24
place cache_stale_served = 25
place cache_refreshes = 26
place panics_recovered = 27
place conc_budget_exceeded = 28
place chaos_injected = 29

abbrev pub Hooks : Type 0
Hooks = Hook → Bool

abbrev pub PolicyMetrics : Type 0
PolicyMetrics = Counter → ℕ

-- The emit methods: a nil receiver and a nil field are no-ops.
unfoldable pub emit {ℓ} : {A : Type ℓ} → Option Hooks → Hook → A → List (Hook × A)
emit none hook a = []
emit (some hooks) hook a = if hooks hook then (hook, a) ∷ [] else []

-- The counter that instrument gives to a hook; a hook without one passes through.
unfoldable pub counter_of : Hook → Option Counter
counter_of on_retry = some retries
counter_of on_circuit_open = some circuit_opens
counter_of on_circuit_close = some circuit_closes
counter_of on_circuit_half_open = some circuit_half_opens
counter_of on_circuit_ramping = some circuit_ramps
counter_of on_rate_limited = some rate_limited
counter_of on_bulkhead_full = some bulkhead_rejected
counter_of on_bulkhead_acquired = none
counter_of on_bulkhead_released = none
counter_of on_bulkhead_queued = none
counter_of on_bulkhead_timeout = some bulkhead_timeouts
counter_of on_codel_shed = some codel_shed
counter_of on_timeout = some timeouts
counter_of on_hedge_triggered = some hedges_triggered
counter_of on_hedge_won = some hedges_won
counter_of on_fallback_used = some fallbacks_used
counter_of on_retry_budget_exceeded = some retry_budget_exceeded
counter_of on_time_budget_exceeded = some time_budget_exceeded
counter_of on_coalesce_leader = some coalesce_leaders
counter_of on_coalesce_follower = some coalesce_followers
counter_of on_cache_hit = some cache_hits
counter_of on_cache_miss = some cache_misses
counter_of on_cache_stored = some cache_stores
counter_of on_stale_served = some cache_stale_served
counter_of on_cache_refreshed = some cache_refreshes
counter_of on_concurrency_rejected = some concurrency_rejected
counter_of on_concurrency_limit_changed = none
counter_of on_throttled = some throttled
counter_of on_slo_shed = some slo_shed
counter_of on_rate_adapted = some rate_adaptations
counter_of on_slow_call_rate_exceeded = some slow_call_rate_exceeded
counter_of on_panic = some panics_recovered
counter_of on_concurrency_budget_exceeded = some conc_budget_exceeded
counter_of on_chaos_injected = some chaos_injected

unfoldable pub add_one : PolicyMetrics → Counter → PolicyMetrics
unfolding place
add_one m c = λ d. if place d == place c then m d + 1 else m d

-- A hook of instrument: the counter first, then the caller's hook.
unfoldable pub counting_hook {ℓ} :
    {A : Type ℓ} → PolicyMetrics → Counter → Hooks → Hook → A → PolicyMetrics × List (Hook × A)
unfolding add_one emit
counting_hook m c user hook a = (add_one m c, emit (some user) hook a)

-- What becomes of the metrics, and which of the caller's hooks are called, when the instrumented hook is
-- emitted.
unfoldable pub counted_hook {ℓ} :
    {A : Type ℓ}
    → Option Counter
    → PolicyMetrics
    → Hooks
    → Hook
    → A
    → PolicyMetrics × List (Hook × A)
unfolding counting_hook emit
counted_hook (some c) m user hook a = counting_hook m c user hook a
counted_hook none m user hook a = (m, emit (some user) hook a)

unfoldable pub instrument {ℓ} :
    {A : Type ℓ} → PolicyMetrics → Hooks → Hook → A → PolicyMetrics × List (Hook × A)
unfolding counter_of counted_hook
instrument m user hook a = counted_hook (counter_of hook) m user hook a

-- A run of emissions.
unfoldable pub emit_all {ℓ} :
    {A : Type ℓ} → PolicyMetrics → Hooks → List (Hook × A) → PolicyMetrics × List (Hook × A)
unfolding instrument
emit_all m user [] = (m, [])
emit_all m user ((hook, a) ∷ events) =
    let (counted, calls) = instrument m user hook a in
    let (final, later) = emit_all counted user events in (final, calls ++ later)
