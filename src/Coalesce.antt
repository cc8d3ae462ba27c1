-- ===== src/Coalesce.antt =====
-- coalesce.go: the coalescer. A shared call is named by the number of its allocation; `done` holds
-- the results of those whose channel is closed. The goroutine of execute is the pair of its start in
-- `enter` and its end in `remove` and `close_done`; the hooks are the `leader` flag of `enter`.
pub mod SingleFlight
pub mod Results
use r8e.Prelude.{
  ℕ, zero, suc, ◌+◌, Bool, true, false, Option, none, some, List, [], ◌∷◌, ◌==◌, length,
  if◌then◌else◌,
}
use r8e.Errors.{Error}
use r8e.Retry.{Result, ok, err}

pub record Coalescer {ℓ} (T : Type ℓ) : Type ℓ where
  -- The calls in flight: their keys and names.
  pub in_flight : List (ℕ × ℕ)
  pub done : List (ℕ × Result T)
  pub allocated : ℕ

abbrev pub look_up {ℓ} : {A : Type ℓ} → List (ℕ × A) → ℕ → Option A
look_up [] k = none
look_up ((j, a) ∷ rest) k = let found = look_up rest k in if j == k then some a else found

abbrev pub delete {ℓ} : {A : Type ℓ} → List (ℕ × A) → ℕ → List (ℕ × A)
delete [] k = []
delete ((j, a) ∷ rest) k = let kept = delete rest k in if j == k then kept else (j, a) ∷ kept

unfoldable pub new_coalescer {ℓ} : {T : Type ℓ} → Coalescer T
new_coalescer = record { in_flight = []; done = []; allocated = 0 }

-- The critical section of Do: the call that its caller awaits, and whether the caller leads it.
unfoldable pub enter {ℓ} : {T : Type ℓ} → Coalescer T → ℕ → Coalescer T × ℕ × Bool
enter c key = elim (look_up c.in_flight key) [
  | some call ↦ (c, call, false)
  | none ↦ (
    record c { in_flight = (key, c.allocated) ∷ c.in_flight; allocated = c.allocated + 1 },
    c.allocated,
    true,
  )
]

-- The end of execute, in its two steps: the critical section that removes the key, and the closing of done,
-- from when on what the call returned can be read.
unfoldable pub remove {ℓ} : {T : Type ℓ} → Coalescer T → ℕ → Coalescer T
remove c key = record c { in_flight = delete c.in_flight key }

unfoldable pub close_done {ℓ} : {T : Type ℓ} → Coalescer T → ℕ → Result T → Coalescer T
close_done c call r = record c { done = (call, r) ∷ c.done }

-- The second select of await, on whether the call is done and its caller's context has ended: if both are
-- ready, either is taken, as `over_end` says. There is no answer while neither is.
abbrev pub await_either {ℓ} :
    {T : Type ℓ} → Option (Result T) → Option Error → Bool → Option (Result T)
await_either (some r) (some e) over_end = if over_end then some r else some (err e)
await_either (some r) none over_end = some r
await_either none (some e) over_end = some (err e)
await_either none none over_end = none

-- What a caller that awaits the call gets: the first select looks at the coalescer as it is then, the second
-- one at what it has become.
unfoldable pub await {ℓ} :
    {T : Type ℓ} → Coalescer T → Coalescer T → ℕ → Option Error → Bool → Option (Result T)
await polled c call cancelled over_end = elim (look_up polled.done call) [
  | some r ↦ some r
  | none ↦ await_either (look_up c.done call) cancelled over_end
]

unfoldable pub in_flight_calls {ℓ} : {T : Type ℓ} → Coalescer T → ℕ
in_flight_calls c = length c.in_flight
