-- ===== src/Errors.antt =====
-- errors.go, retryafter.go and recover.go: errors as trees, and what errors.As and errors.Is find.
-- Both of these search a tree from its root, in a joined pair the first error before the second.
-- `joined a b` is fmt.Errorf("%w: %w", a, b); `foreign` is an error of the caller, which wraps none.
pub mod Hints
use r8e.Prelude.{
  ℕ, suc, ◌+◌, ◌-◌, ◌*◌, ◌/◌, ◌%◌, ◌^◌, Bool, true, false, not, ◌||◌, Option, none, some, leb, ltb,
  if◌then◌else◌,
}

-- The sentinels of the package in their order, then those of package context.
pub data Sentinel : Type 0 where
  err_circuit_open err_circuit_ramping err_rate_limited err_bulkhead_full err_bulkhead_timeout
        err_codel_shed err_concurrency_limited err_throttled err_slo_shed err_timeout
        err_time_budget_exceeded err_retries_exhausted err_retry_budget_without_retry
        err_coalesce_nil_key_func err_coalesce_without_timeout err_cache_nil_key_func
        err_cache_nil_cache err_cache_non_positive_ttl err_refresh_ahead_without_timeout
        err_concurrency_limiter_conflict err_time_budget_without_consumer
        err_deadline_propagation_without_budget err_inbound_deadline_without_budget
        err_slow_call_config_incomplete err_bulkhead_wait_without_bulkhead
        err_bulkhead_queue_without_wait err_bulkhead_codel_config_incomplete
        err_aimd_without_rate_limit err_adaptive_timeout_without_timeout
        err_adaptive_hedge_without_hedge err_retry_max_attempts_required err_slo_target_required
        err_panic err_concurrency_budget_exceeded err_chaos_injected
        err_concurrency_budget_without_consumer context_canceled context_deadline_exceeded :
      Sentinel

pub data Error : Type 0 where
  sentinel : Sentinel → Error
  transient_error permanent_error : Error → Error
  retry_after_error : Error → ℕ → Error
  panic_error : ℕ → Error
  joined : Error → Error → Error
  foreign : ℕ → Error

-- errors.As with a *permanentError target.
as_permanent : Error → Bool
as_permanent (permanent_error e) = true
as_permanent (transient_error e) = as_permanent e
as_permanent (retry_after_error e d) = as_permanent e
as_permanent (joined a b) = as_permanent a || as_permanent b
as_permanent _ = false

-- Transient, Permanent and RetryAfterError keep nil.
unfoldable pub mark_transient : Option Error → Option Error
mark_transient none = none
mark_transient (some e) = some (transient_error e)

unfoldable pub mark_permanent : Option Error → Option Error
mark_permanent none = none
mark_permanent (some e) = some (permanent_error e)

unfoldable pub with_retry_after : Option Error → ℕ → Option Error
with_retry_after none after = none
with_retry_after (some e) after = some (retry_after_error e after)

unfoldable pub is_transient : Option Error → Bool
unfolding as_permanent
is_transient none = false
is_transient (some e) = not (as_permanent e)

unfoldable pub is_permanent : Option Error → Bool
unfolding as_permanent
is_permanent none = false
is_permanent (some e) = as_permanent e

or_else : Option ℕ → Option ℕ → Option ℕ
or_else none o = o
or_else (some d) o = some d

-- errors.As with a RetryAfterProvider target.
unfoldable pub retry_after_from_error : Error → Option ℕ
unfolding or_else
retry_after_from_error (retry_after_error e after) = some after
retry_after_from_error (permanent_error e) = retry_after_from_error e
retry_after_from_error (transient_error e) = retry_after_from_error e
retry_after_from_error (joined a b) = or_else (retry_after_from_error a) (retry_after_from_error b)
retry_after_from_error _ = none

-- math.MaxInt64
abbrev pub max_int64 : ℕ
max_int64 = 2 ^ 63 - 1

-- `draw` is the value of rand.Int64N(2 * jitter + 1). A sum past max_int64 wraps to a negative one.
unfoldable pub jittered_retry_after : ℕ → ℕ → ℕ
jittered_retry_after delay draw =
    let jitter = delay / 10 in
    if leb delay 0
    then 0
    else if leb jitter 0
    then delay
    else if ltb max_int64 (delay - jitter + draw)
    then max_int64
    else delay - jitter + draw
