-- ===== src/Metrics/Wiring.antt =====
-- hooks.go and metrics.go: the event that each counter is for, and that instrument wires them so.
use r8e.Prelude.{ℕ, ◌≡◌, refl, sym, subst, ap, zero, suc, ◌∙◌, Option, none, some, List, [], ◌∷◌}
use r8e.Metrics.{
  Hook, Counter, place, counter_of, on_retry, on_circuit_open, on_circuit_close,
  on_circuit_half_open, on_circuit_ramping, on_rate_limited, on_bulkhead_full, on_bulkhead_acquired,
  on_bulkhead_released, on_bulkhead_queued, on_bulkhead_timeout, on_codel_shed, on_timeout,
  on_hedge_triggered, on_hedge_won, on_fallback_used, on_retry_budget_exceeded,
  on_time_budget_exceeded, on_coalesce_leader, on_coalesce_follower, on_cache_hit, on_cache_miss,
  on_cache_stored, on_stale_served, on_cache_refreshed, on_concurrency_rejected,
  on_concurrency_limit_changed, on_throttled, on_slo_shed, on_rate_adapted,
  on_slow_call_rate_exceeded, on_panic, on_concurrency_budget_exceeded, on_chaos_injected, retries,
  timeouts, circuit_opens, circuit_closes, circuit_half_opens, circuit_ramps, rate_limited,
  bulkhead_rejected, bulkhead_timeouts, codel_shed, hedges_triggered, hedges_won, fallbacks_used,
  retry_budget_exceeded, coalesce_leaders, coalesce_followers, concurrency_rejected, throttled,
  slo_shed, rate_adaptations, slow_call_rate_exceeded, time_budget_exceeded, cache_hits,
  cache_misses, cache_stores, cache_stale_served, cache_refreshes, panics_recovered,
  conc_budget_exceeded, chaos_injected,
}

-- The event of a counter, as the fields of PolicyMetrics describe them.
abbrev pub event : Counter → Hook
event retries = on_retry
event timeouts = on_timeout
event circuit_opens = on_circuit_open
event circuit_closes = on_circuit_close
event circuit_half_opens = on_circuit_half_open
event circuit_ramps = on_circuit_ramping
event rate_limited = on_rate_limited
event bulkhead_rejected = on_bulkhead_full
event bulkhead_timeouts = on_bulkhead_timeout
event codel_shed = on_codel_shed
event hedges_triggered = on_hedge_triggered
event hedges_won = on_hedge_won
event fallbacks_used = on_fallback_used
event retry_budget_exceeded = on_retry_budget_exceeded
event coalesce_leaders = on_coalesce_leader
event coalesce_followers = on_coalesce_follower
event concurrency_rejected = on_concurrency_rejected
event throttled = on_throttled
event slo_shed = on_slo_shed
event rate_adaptations = on_rate_adapted
event slow_call_rate_exceeded = on_slow_call_rate_exceeded
event time_budget_exceeded = on_time_budget_exceeded
event cache_hits = on_cache_hit
event cache_misses = on_cache_miss
event cache_stores = on_cache_stored
event cache_stale_served = on_stale_served
event cache_refreshes = on_cache_refreshed
event panics_recovered = on_panic
event conc_budget_exceeded = on_concurrency_budget_exceeded
event chaos_injected = on_chaos_injected

pub counter_of-event : (c : Counter) → counter_of (event c) ≡ some c
unfolding counter_of
counter_of-event retries = refl
counter_of-event timeouts = refl
counter_of-event circuit_opens = refl
counter_of-event circuit_closes = refl
counter_of-event circuit_half_opens = refl
counter_of-event circuit_ramps = refl
counter_of-event rate_limited = refl
counter_of-event bulkhead_rejected = refl
counter_of-event bulkhead_timeouts = refl
counter_of-event codel_shed = refl
counter_of-event hedges_triggered = refl
counter_of-event hedges_won = refl
counter_of-event fallbacks_used = refl
counter_of-event retry_budget_exceeded = refl
counter_of-event coalesce_leaders = refl
counter_of-event coalesce_followers = refl
counter_of-event concurrency_rejected = refl
counter_of-event throttled = refl
counter_of-event slo_shed = refl
counter_of-event rate_adaptations = refl
counter_of-event slow_call_rate_exceeded = refl
counter_of-event time_budget_exceeded = refl
counter_of-event cache_hits = refl
counter_of-event cache_misses = refl
counter_of-event cache_stores = refl
counter_of-event cache_stale_served = refl
counter_of-event cache_refreshes = refl
counter_of-event panics_recovered = refl
counter_of-event conc_budget_exceeded = refl
counter_of-event chaos_injected = refl

-- A counter that an event is wired to is one for this event.
abbrev Wired : Hook → Option Counter → Type 0
Wired hook none = Unit
Wired hook (some c) = event c ≡ hook

counter_of-Wired : (hook : Hook) → Wired hook (counter_of hook)
unfolding counter_of
counter_of-Wired on_retry = refl
counter_of-Wired on_circuit_open = refl
counter_of-Wired on_circuit_close = refl
counter_of-Wired on_circuit_half_open = refl
counter_of-Wired on_circuit_ramping = refl
counter_of-Wired on_rate_limited = refl
counter_of-Wired on_bulkhead_full = refl
counter_of-Wired on_bulkhead_acquired = tt
counter_of-Wired on_bulkhead_released = tt
counter_of-Wired on_bulkhead_queued = tt
counter_of-Wired on_bulkhead_timeout = refl
counter_of-Wired on_codel_shed = refl
counter_of-Wired on_timeout = refl
counter_of-Wired on_hedge_triggered = refl
counter_of-Wired on_hedge_won = refl
counter_of-Wired on_fallback_used = refl
counter_of-Wired on_retry_budget_exceeded = refl
counter_of-Wired on_time_budget_exceeded = refl
counter_of-Wired on_coalesce_leader = refl
counter_of-Wired on_coalesce_follower = refl
counter_of-Wired on_cache_hit = refl
counter_of-Wired on_cache_miss = refl
counter_of-Wired on_cache_stored = refl
counter_of-Wired on_stale_served = refl
counter_of-Wired on_cache_refreshed = refl
counter_of-Wired on_concurrency_rejected = refl
counter_of-Wired on_concurrency_limit_changed = tt
counter_of-Wired on_throttled = refl
counter_of-Wired on_slo_shed = refl
counter_of-Wired on_rate_adapted = refl
counter_of-Wired on_slow_call_rate_exceeded = refl
counter_of-Wired on_panic = refl
counter_of-Wired on_concurrency_budget_exceeded = refl
counter_of-Wired on_chaos_injected = refl

pub event-counter_of : (hook : Hook) (c : Counter) → counter_of hook ≡ some c → event c ≡ hook
event-counter_of hook c e = subst (Wired hook) e (counter_of-Wired hook)

-- The counters, in their places.
abbrev counters : List Counter
counters =
    retries ∷ timeouts ∷ circuit_opens ∷ circuit_closes ∷ circuit_half_opens ∷ circuit_ramps
    ∷ rate_limited ∷ bulkhead_rejected ∷ bulkhead_timeouts ∷ codel_shed ∷ hedges_triggered
    ∷ hedges_won ∷ fallbacks_used ∷ retry_budget_exceeded ∷ coalesce_leaders ∷ coalesce_followers
    ∷ concurrency_rejected ∷ throttled ∷ slo_shed ∷ rate_adaptations ∷ slow_call_rate_exceeded
    ∷ time_budget_exceeded ∷ cache_hits ∷ cache_misses ∷ cache_stores ∷ cache_stale_served
    ∷ cache_refreshes ∷ panics_recovered ∷ conc_budget_exceeded ∷ chaos_injected ∷ []

abbrev at : List Counter → ℕ → Option Counter
at [] n = none
at (c ∷ rest) zero = some c
at (c ∷ rest) (suc n) = at rest n

at-place : (c : Counter) → at counters (place c) ≡ some c
unfolding place
at-place retries = refl
at-place timeouts = refl
at-place circuit_opens = refl
at-place circuit_closes = refl
at-place circuit_half_opens = refl
at-place circuit_ramps = refl
at-place rate_limited = refl
at-place bulkhead_rejected = refl
at-place bulkhead_timeouts = refl
at-place codel_shed = refl
at-place hedges_triggered = refl
at-place hedges_won = refl
at-place fallbacks_used = refl
at-place retry_budget_exceeded = refl
at-place coalesce_leaders = refl
at-place coalesce_followers = refl
at-place concurrency_rejected = refl
at-place throttled = refl
at-place slo_shed = refl
at-place rate_adaptations = refl
at-place slow_call_rate_exceeded = refl
at-place time_budget_exceeded = refl
at-place cache_hits = refl
at-place cache_misses = refl
at-place cache_stores = refl
at-place cache_stale_served = refl
at-place cache_refreshes = refl
at-place panics_recovered = refl
at-place conc_budget_exceeded = refl
at-place chaos_injected = refl

pub place-injective : (c d : Counter) → place c ≡ place d → c ≡ d
place-injective c d e =
    let same : some c ≡ some d = sym (at-place c) ∙ ap (at counters) e ∙ at-place d in cc same
