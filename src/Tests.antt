-- ===== src/Tests.antt =====
-- Runs of the modelled code at concrete inputs, and the theorems at inputs that meet their
-- hypotheses.
mod Adaptive
mod Breaker
mod Bulkhead
mod Chain
mod Chaos
mod Coalesce
mod Config
mod Health
mod Latency
mod Metrics
mod ReadThrough
mod Retry
mod Shedding
mod RateLimiter
mod StaleCache
mod TimeBudget
