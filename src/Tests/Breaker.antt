-- ===== src/Tests/Breaker.antt =====
-- circuitbreaker.go at concrete inputs, over numbers of thousandths.
use r8e.Prelude.{ℕ, ◌≤◌, ◌≡◌, refl, true, false, List, [], ◌∷◌, arith, ◌↔◌}
use r8e.Prelude.Thousandths.{thousandths}
use r8e.Breaker.Options.{
  CircuitBreakerOption, failure_threshold, half_open_max_attempts, recovery_timeout,
  recovery_backoff_multiplier, recovery_max_backoff, ramp_recovery,
}
use r8e.Breaker.Window.{empty_window}
use r8e.Breaker.State.{
  state_closed, state_open, CircuitBreaker, CallInput, new_circuit_breaker, on_circuit_open,
  current_recovery_timeout, reconfigure, ramp_fraction_at, slow_call_enabled,
}
use r8e.Breaker.{allow, record_outcome}
use r8e.Breaker.Diagram.{RecordEdge, record_outcome-RecordEdge}
use r8e.Breaker.Invariant.{Inv, Call, admits, records, run, run-Inv, new_circuit_breaker-Inv}
use r8e.Breaker.Recovery.{healthy_calls, closed_needs_healthy}
use r8e.Breaker.Trips.{record_all, HasStreak, record_all_open_iff}
use r8e.Breaker.History.{observe_all, observe_all_last}
use r8e.Breaker.Verdicts.{count_slow}

abbrev options : List (CircuitBreakerOption thousandths)
options =
    failure_threshold 2
    ∷ half_open_max_attempts 2
    ∷ recovery_timeout 100
    ∷ recovery_backoff_multiplier 2000
    ∷ recovery_max_backoff 150
    ∷ []

abbrev new_breaker : CircuitBreaker thousandths
new_breaker = new_circuit_breaker thousandths options

abbrev failure : CallInput
failure = record { elapsed = 5; failed = true }

abbrev success : CallInput
success = record { elapsed = 5; failed = false }

abbrev fails : List (Call thousandths)
fails = records failure 10 ∷ records failure 20 ∷ []

abbrev tripped_breaker : CircuitBreaker thousandths
tripped_breaker = run thousandths new_breaker fails

abbrev two_failures : List (CallInput × ℕ)
two_failures = (failure, 10) ∷ (failure, 20) ∷ []

abbrev recovers : List (Call thousandths)
recovers = admits 130 0 ∷ records success 131 ∷ admits 132 0 ∷ records success 133 ∷ []

opens : (run thousandths new_breaker fails).state ≡ state_open
unfolding run record_outcome new_circuit_breaker
opens = refl

closes : (run thousandths (run thousandths new_breaker fails) recovers).state ≡ state_closed
unfolding run record_outcome allow new_circuit_breaker
closes = refl

run-Inv_example : Inv thousandths (run thousandths new_breaker fails)
run-Inv_example =
    run-Inv thousandths new_breaker fails (new_circuit_breaker-Inv thousandths options)

record_outcome-RecordEdge_example : RecordEdge state_closed (on_circuit_open ∷ []) state_open
unfolding run record_outcome new_circuit_breaker
record_outcome-RecordEdge_example =
    record_outcome-RecordEdge thousandths (run thousandths new_breaker (records failure 10 ∷ []))
      failure 20

closed_needs_healthy_example : 2 ≤ healthy_calls thousandths new_breaker.cfg recovers
unfolding run record_outcome new_circuit_breaker
closed_needs_healthy_example =
    closed_needs_healthy thousandths (run thousandths new_breaker fails) recovers opens closes

-- Before the 100 ns are over, and after them.

record_all_open_iff_example :
    (record_all thousandths new_breaker two_failures).state ≡ state_open
    ↔ HasStreak thousandths 2 two_failures
unfolding new_circuit_breaker slow_call_enabled
record_all_open_iff_example =
    record_all_open_iff thousandths new_breaker two_failures refl refl refl

observe_all_last_example :
    ((observe_all empty_window 2 (true ∷ false ∷ true ∷ [])).slow ≡ 1)
    × ((observe_all empty_window 2 (true ∷ false ∷ true ∷ [])).filled ≡ 2)
unfolding count_slow
observe_all_last_example = observe_all_last empty_window 2 true (false ∷ true ∷ []) (omega arith)

-- The second wait doubles to 200 ns, and is cut to 150.
abbrev reopened_breaker : CircuitBreaker thousandths
reopened_breaker = run thousandths tripped_breaker (admits 130 0 ∷ records failure 131 ∷ [])

second_wait : current_recovery_timeout thousandths reopened_breaker ≡ 150
unfolding run record_outcome allow new_circuit_breaker current_recovery_timeout
second_wait = refl

abbrev rebuilt : CircuitBreaker thousandths
rebuilt =
    reconfigure thousandths (new_circuit_breaker thousandths options) (ramp_recovery 1000 ∷ [])

half_way : ramp_fraction_at thousandths rebuilt 500 ≡ 500
unfolding ramp_fraction_at reconfigure new_circuit_breaker
half_way = refl
