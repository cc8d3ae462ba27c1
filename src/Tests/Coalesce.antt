-- ===== src/Tests/Coalesce.antt =====
-- coalesce.go at concrete inputs.
use r8e.Prelude.{ℕ, ◌≡◌, refl, false, some, [], ◌∷◌}
use r8e.Errors.{foreign}
use r8e.Retry.{ok, err}
use r8e.Coalesce.{enter, remove, close_done, await, new_coalescer}
use r8e.Coalesce.SingleFlight.{
  System, Reach, start, later, Step, enters, removes, closes, SingleFlight, Reach-SingleFlight,
}
use r8e.Coalesce.Results.{Shared, none_yet, next, await-Shared}

-- Two keys are called for, the second one twice.
abbrev busy : System ℕ
busy = record {
  coalescer = record { in_flight = (5, 1) ∷ (4, 0) ∷ []; done = []; allocated = 2 };
  running = (5, 1) ∷ (4, 0) ∷ [];
  closing = [];
}

busy_reached : Reach ℕ busy
unfolding new_coalescer enter
busy_reached = later (later (later start (enters _ 4)) (enters _ 5)) (enters _ 5)

Reach-SingleFlight_example : SingleFlight ℕ busy
Reach-SingleFlight_example = Reach-SingleFlight ℕ busy_reached

abbrev leaving : System ℕ
leaving = record {
  coalescer = record { in_flight = (5, 1) ∷ []; done = []; allocated = 2 };
  running = (5, 1) ∷ [];
  closing = (4, 0) ∷ [];
}

abbrev answered : System ℕ
answered = record {
  coalescer = record { in_flight = (5, 1) ∷ []; done = (0, ok 7) ∷ []; allocated = 2 };
  running = (5, 1) ∷ [];
  closing = [];
}

leaves_busy : Step ℕ busy leaving
unfolding remove
leaves_busy = removes busy.coalescer ((5, 1) ∷ []) [] [] 4 0

answers_call : Step ℕ leaving answered
unfolding close_done
answers_call = closes leaving.coalescer ((5, 1) ∷ []) [] [] 4 0 (ok 7)

-- A caller looks when the call still runs, and selects when it is done and its context has ended.
await-Shared_example :
    Shared busy answered answered 0
      (some (foreign 3))
      (await busy.coalescer answered.coalescer 0 (some (foreign 3)) false)
await-Shared_example =
    await-Shared {s = busy} {t = answered} {u = answered} 0 (some (foreign 3)) false busy_reached
      (next (next (none_yet busy) leaves_busy) answers_call) (none_yet answered)

gives_up_late :
    await busy.coalescer answered.coalescer 0 (some (foreign 3)) false ≡ some (err (foreign 3))
unfolding await
gives_up_late = refl

takes_result : await answered.coalescer answered.coalescer 0 (some (foreign 3)) false ≡ some (ok 7)
unfolding await
takes_result = refl
