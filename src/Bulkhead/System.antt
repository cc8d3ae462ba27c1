-- ===== src/Bulkhead/System.antt =====
-- bulkhead.go: a bulkhead among its callers, as a sequence of critical sections in any order.
-- Sound callers are assumed: Release is called once for each Acquire that returned nil.
use r8e.Prelude.{ℕ, ◌+◌, ◌-◌, ◌≤◌, ◌<◌, ◌≡◌, none, some, List}
use r8e.Bulkhead.Options.{BulkheadOption}
use r8e.Bulkhead.{
  Bulkhead, new_bulkhead, Admission, acquired, Outcome, returns, acquire, release, on_ready,
  on_timeout, on_done, reconfigure,
}

pub record System : Type 0 where
  pub bulkhead : Bulkhead
  -- How many callers have got nil from Acquire and have not called Release.
  pub holders : ℕ

abbrev pub admitted : Admission → ℕ
admitted acquired = 1
admitted _ = 0

abbrev pub granted : Outcome → ℕ
granted (returns none hooks) = 1
granted (returns (some e) hooks) = 0

-- `limit` bounds the capacities that Reconfigure is given.
pub data Step (limit : ℕ) : System → System → Type 0 where
  acquires :
      (s : System) (now : ℕ)
      → Step limit s (record s {
        bulkhead = (acquire s.bulkhead now).0;
        holders = s.holders + admitted (acquire s.bulkhead now).1;
      })
  releases :
      (s : System) (now : ℕ)
      → 0 < s.holders
      → Step limit s (record s { bulkhead = (release s.bulkhead now).0; holders = s.holders - 1 })
  wakes :
      (s : System) (n : ℕ) (b : Bulkhead) (o : Outcome)
      → on_ready s.bulkhead n ≡ some (b, o)
      → Step limit s (record s { bulkhead = b; holders = s.holders + granted o })
  times_out :
      (s : System) (n : ℕ) (b : Bulkhead) (o : Outcome)
      → on_timeout s.bulkhead n ≡ some (b, o)
      → Step limit s (record s { bulkhead = b; holders = s.holders + granted o })
  cancels :
      (s : System) (n now : ℕ) (b : Bulkhead) (o : Outcome)
      → on_done s.bulkhead n now ≡ some (b, o)
      → Step limit s (record s { bulkhead = b; holders = s.holders + granted o })
  reconfigures :
      (s : System) (max_concurrent : ℕ) (opts : List BulkheadOption)
      → max_concurrent ≤ limit
      → Step limit s (record s { bulkhead = reconfigure s.bulkhead max_concurrent opts })

pub data Reach (limit : ℕ) : System → Type 0 where
  start :
      (max_concurrent : ℕ) (opts : List BulkheadOption)
      → max_concurrent ≤ limit
      → Reach limit (record { bulkhead = new_bulkhead max_concurrent opts; holders = 0 })
  later : {s t : System} → Reach limit s → Step limit s t → Reach limit t
