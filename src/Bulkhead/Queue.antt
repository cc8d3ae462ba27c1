-- ===== src/Bulkhead/Queue.antt =====
-- bulkhead.go: the waiters of the bulkhead, found and removed by their identity.
use r8e.Prelude.{ℕ, Bool, Option, none, some, List, [], ◌∷◌, ◌==◌, if◌then◌else◌}

pub record Waiter : Type 0 where
  pub name : ℕ
  pub enqueued : ℕ
  pub shed : Bool

unfoldable pub find : ℕ → List Waiter → Option Waiter
find n [] = none
find n (w ∷ ws) = if w.name == n then some w else find n ws

unfoldable pub remove : ℕ → List Waiter → List Waiter
remove n [] = []
remove n (w ∷ ws) = if w.name == n then ws else w ∷ remove n ws
