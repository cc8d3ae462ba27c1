-- ===== src/Lib.antt =====
-- A verification library for r8e, a Go library of resilience patterns: a policy wraps a call in a
-- chain of patterns (circuit breaker, bulkhead, retry and others), each a stateful component of
-- its own behind a mutex, and derives its health from them.
--
-- The parts, the files that model them, and the Go files that they follow:
--   Errors              errors.go, retryafter.go: errors as trees, their marks, the Retry-After hint
--   Breaker             circuitbreaker.go: options, slow-call window, the four states of Allow and
--                       RecordSuccess, RecordFailure and recordOutcome, recovery wait and ramp
--   Codel, Bulkhead     codel.go, bulkhead.go: slots, the wait queue, its controlled-delay discipline
--   RetryBudget         retrybudget.go: the token budgets, each with its ancestors
--   ConcurrencyBudget   concurrencybudget.go: the cap on retries and hedges in flight
--   Retry               retry.go: DoRetry, which uses Errors and both budgets
--   Window              throttle.go, slo.go: the sliding window of ten buckets
--   Sheddability        sheddability.go: which calls may be shed
--   Throttle, Slo       throttle.go, slo.go: the adaptive throttler and the SLO governor, on Window
--   RateLimiter         ratelimit.go: the token bucket, its atomic updates, the AIMD controller
--   Backoff             backoff.go: the delays between retries
--   Policy              policy.go: options, the setup and its rules, the layers of NewPolicy, on Chain
--   Config              config.go: BuildOptions, the options of a policy from a configuration
--   Reconfigure         reconfigure.go: the actions of Policy.Reconfigure on the live patterns
--   Latency, Percentile latency.go, percentile.go: the window of latencies, its percentiles
--   Estimator, Timeout  timeout.go: the adaptive limits of time, DoTimeout as a race
--   Hedge               hedge.go: DoHedge as a race of two attempts, with ConcurrencyBudget
--   TimeBudget          timebudget.go: the budget of a call and the deadline context
--   Adaptive            adaptive.go: the concurrency limit that follows the round-trip times
--   Coalesce            coalesce.go: one shared call for each key, its leader and its followers
--   StaleCache          stalecache.go: the last good value of a key, over a cache given by its laws
--   ReadThrough         readthrough.go: hits, stale and negative entries, and the reloads
--   Chaos, Recover      chaos.go, recover.go, fallback.go: injected disturbances, panics, fallbacks
--   Metrics             hooks.go, metrics.go: the hooks, the counters and the hooks that count
--   Httpx               httpx/deadline.go: the header that carries a deadline
--   Chain               order.go, middleware.go: SortPatterns and Chain
--   Health, Registry    health.go, registry.go: the status of a policy and of all policies; Health
--                       reads the breaker, the bulkhead and the budgets
--   Prelude             names and lemmas that the parts share
--   Tests               runs at concrete inputs
-- A folder named like a file holds the file's child modules: further definitions, and the proofs.
--
-- How state and operations correspond to the code. A struct is a record with the fields of the
-- source in snake_case; a method is a function of the record, named after it, that returns the
-- new record with the result and the list of the hooks that it fires, in their order. What a
-- mutex guards is one function, so one step of an interleaving: Bulkhead/System,
-- Coalesce/SingleFlight, Adaptive/Band, ConcurrencyBudget/Permits, ReadThrough/Reloads and
-- TimeBudget/Causes interleave callers by a step relation, and so does RateLimiter/System, where
-- a step is an update of an atomic cell; the calls on a circuit breaker are a list of steps. The
-- selects of Timeout and Hedge are races of the times at which results, timers and the end of the
-- context come, which are parameters, with the choice between simultaneous ones. DoRetry is a
-- recursion on the attempts that are left, started with max(MaxAttempts, 1) as in the code, so it
-- needs no other fuel; the rounds of drainWaiters and of the controlled-delay pass are bounded by
-- the length of the queue. The blocking loop of the rate limiter runs over the list of the events
-- that end its waits.
--
-- Numbers. Counters and durations are natural numbers, durations in nanoseconds. No duration or
-- limit is negative here, and counters do not reach the bound of a machine word. The clock does
-- not go back. Float64 is a parameter: Prelude/Float has its operations, and the laws that the
-- proofs use, laws of IEEE arithmetic without NaN. Prelude/Thousandths has numbers of
-- thousandths, on which Tests runs the code. The draws of math/rand, the samplers, the answers of
-- a context and of a timer are arguments, and so is time.ParseDuration. Values of the caller that
-- the policy builder only hands on, such as caches and fallback functions, have types of their
-- own, the Handles.
--
-- Not modelled: the texts of errors and the JSON of reports; the snapshot of the metrics; a
-- call that panics, but in Recover and Chaos, so the releases that it defers; what others do to a
-- shared retry budget while a call of DoRetry lasts; goroutines and
-- channels beyond the selects of the bulkhead, the coalescer, the timeout and the hedge; the
-- function that goes on when a timeout or a hedge has left it; the middlewares, which are a
-- parameter of NewPolicy here, but for those of the timeout, the time budget and the hedge, and
-- the check of the types of cache and fallback values; the registration of a policy and the
-- search for one to reconfigure; the presets; the adapters httpx but for its deadline header,
-- r8ehttp, r8econf, r8eotel, otter and ristretto, which call the core.
pub mod Prelude
pub mod Adaptive
pub mod Backoff
pub mod Breaker
pub mod Bulkhead
pub mod Chain
pub mod Chaos
pub mod Coalesce
pub mod Codel
pub mod ConcurrencyBudget
pub mod Config
pub mod Errors
pub mod Estimator
pub mod Health
pub mod Hedge
pub mod Httpx
pub mod Latency
pub mod Metrics
pub mod Percentile
pub mod Policy
pub mod RateLimiter
pub mod ReadThrough
pub mod Reconfigure
pub mod Recover
pub mod Registry
pub mod Retry
pub mod RetryBudget
pub mod Sheddability
pub mod Slo
pub mod StaleCache
pub mod Tests
pub mod Throttle
pub mod TimeBudget
pub mod Timeout
pub mod Window
