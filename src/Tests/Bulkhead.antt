-- ===== src/Tests/Bulkhead.antt =====
-- bulkhead.go and codel.go at concrete inputs.
use r8e.Prelude.{ℕ, ◌-◌, ◌≤◌, ◌≡◌, refl, true, false, [], ◌∷◌, ◌⊎◌, ◌↔◌, some, none, arith}
use r8e.Codel.{Codel, is_overloaded, enabled}
use r8e.Codel.Latch.{observe_all, overloaded_iff_Lasts}
use r8e.Bulkhead.Options.{bulkhead_max_wait}
use r8e.Bulkhead.Queue.{Waiter}
use r8e.Bulkhead.{Bulkhead, new_bulkhead, acquire, release}
use r8e.Bulkhead.System.{acquires, releases, Reach, start, later}
use r8e.Bulkhead.Slots.{SlotsInv, Reach-Inv}

abbrev healthy_queue : Codel
healthy_queue = record { above_since = none; target = 5; interval = 100; overloaded = false }

overloaded_iff_Lasts_example :
    ((observe_all healthy_queue ((3, 10) ∷ (6, 20) ∷ (9, 130) ∷ [])).overloaded ≡ true)
    ↔ ((100 ≤ 130 - 20) ⊎ ⊥)
overloaded_iff_Lasts_example =
    overloaded_iff_Lasts healthy_queue (3, 10) (6, 20) ((9, 130) ∷ []) (omega arith) (omega arith)

-- One slot; a caller holds it, a second one waits, and the first gives the slot back.
abbrev one_slot : Bulkhead
one_slot = new_bulkhead 1 (bulkhead_max_wait 50 ∷ [])

abbrev taken : Bulkhead
taken = (acquire one_slot 0).0

abbrev contended : Bulkhead
contended = (acquire taken 1).0

contended_reached : Reach 1 (record { bulkhead = (release contended 2).0; holders = 0 })
unfolding new_bulkhead acquire
contended_reached =
    later
      (later (later (start 1 (bulkhead_max_wait 50 ∷ []) (omega arith)) (acquires _ 0))
        (acquires _ 1))
      (releases _ 2 (omega arith))

Reach-Inv_example : SlotsInv 1 (record { bulkhead = (release contended 2).0; holders = 0 })
Reach-Inv_example = Reach-Inv contended_reached

handed_over : (release contended 2).0.woken ≡ record { name = 0; enqueued = 1; shed = false } ∷ []
unfolding new_bulkhead acquire release enabled is_overloaded
handed_over = refl

-- Three callers wait in an overloaded queue.
abbrev waiter : ℕ → ℕ → Waiter
waiter name enqueued = record { name = name; enqueued = enqueued; shed = false }

abbrev backed_up : Bulkhead
backed_up = record {
  max_conc = 1;
  cur = 1;
  max_wait = 0;
  max_queue = 8;
  codel = record { above_since = some 20; target = 5; interval = 100; overloaded = true };
  waiters = waiter 0 100 ∷ waiter 1 115 ∷ waiter 2 118 ∷ [];
  woken = [];
  allocated = 3;
}
