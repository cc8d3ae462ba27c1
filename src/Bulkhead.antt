-- ===== src/Bulkhead.antt =====
-- bulkhead.go: the bulkhead. A method returns the new bulkhead with what its caller sees and the
-- hooks. Each critical section of the mutex is one function: a queued call of Acquire ends in one of
-- the three cases of waitForSlot's select, `on_ready`, `on_timeout` and `on_done`.
-- A waiter object is named by the number of its allocation. Those whose channel was closed, with the
-- flag that Release wrote, are kept in `woken` until their own call returns.
pub mod Options
pub mod Queue
pub mod System
pub mod Slots
pub mod Discipline
use r8e.Prelude.{
  ℕ, zero, suc, ◌+◌, ◌-◌, Bool, true, false, ◌&&◌, ◌||◌, not, Option, none, some, List, [], ◌∷◌,
  ◌++◌, leb, ltb, ◌==◌, if◌then◌else◌, length, get_elem?, remove_at,
}
use r8e.Prelude.Float.{Float}
use r8e.Codel.{Codel, enabled, is_overloaded, slough_timeout}
use r8e.Codel
use Options.{BulkheadConfig, BulkheadOption, apply_options}
use Queue.{Waiter, find, remove}

pub data Hook : Type 0 where
  on_bulkhead_acquired on_bulkhead_full on_bulkhead_queued on_bulkhead_timeout on_bulkhead_released
        on_co_del_shed :
      Hook

pub data Error : Type 0 where
  err_bulkhead_full err_bulkhead_timeout err_co_del_shed context_error : Error

pub record Bulkhead : Type 0 where
  pub max_conc : ℕ
  pub cur : ℕ
  pub max_wait : ℕ
  pub max_queue : ℕ
  pub codel : Codel
  pub waiters : List Waiter
  pub woken : List Waiter
  pub allocated : ℕ

unfoldable pub effective_queue_depth : ℕ → ℕ → ℕ
effective_queue_depth max_queue max_concurrent =
    if leb max_queue 0 then max_concurrent else max_queue

unfoldable pub new_bulkhead : ℕ → List BulkheadOption → Bulkhead
unfolding apply_options effective_queue_depth
new_bulkhead max_concurrent opts =
    let zero_config : BulkheadConfig = record {
      max_wait = 0;
      max_queue = 0;
      codel_target = 0;
      codel_interval = 0;
    } in
    let cfg = apply_options opts zero_config in
    record {
      max_conc = max_concurrent;
      cur = 0;
      max_wait = cfg.max_wait;
      max_queue = effective_queue_depth cfg.max_queue max_concurrent;
      codel = record {
        above_since = none;
        target = cfg.codel_target;
        interval = cfg.codel_interval;
        overloaded = false;
      };
      waiters = [];
      woken = [];
      allocated = 0;
    }

-- closeWaiterAt, with the flag that grantWaiterAt or shedWaiterAt wrote before.
close_waiter_at : Bulkhead → ℕ → Bool → Bulkhead
close_waiter_at b idx shed = elim (get_elem? b.waiters idx) [
  | none ↦ b
  | some w ↦ record b {
    waiters = remove_at b.waiters idx;
    woken = record w { shed = shed } ∷ b.woken;
  }
]

-- The loop of drainWaiters. Each round takes a waiter away, so as many rounds as waiters are enough.
drain_rounds : ℕ → Bulkhead → Bulkhead
unfolding close_waiter_at
drain_rounds zero b = b
drain_rounds (suc n) b =
    let next = drain_rounds n (close_waiter_at (record b { cur = b.cur + 1 }) 0 false) in
    if ltb b.cur b.max_conc && ltb 0 (length b.waiters) then next else b

drain_waiters : Bulkhead → Bulkhead
unfolding drain_rounds
drain_waiters b = drain_rounds (length b.waiters) b

unfoldable pub reconfigure : Bulkhead → ℕ → List BulkheadOption → Bulkhead
unfolding apply_options effective_queue_depth drain_waiters
reconfigure b max_concurrent opts =
    let current : BulkheadConfig = record {
      max_wait = b.max_wait;
      max_queue = b.max_queue;
      codel_target = b.codel.target;
      codel_interval = b.codel.interval;
    } in
    let cfg = apply_options opts current in
    drain_waiters (record b {
      max_conc = max_concurrent;
      max_wait = cfg.max_wait;
      max_queue = effective_queue_depth cfg.max_queue max_concurrent;
      codel = Codel.reconfigure b.codel cfg.codel_target cfg.codel_interval;
    })

-- What the first critical section of Acquire decides; a queued caller waits under its name.
pub data Admission : Type 0 where
  acquired full : Admission
  queued : ℕ → Admission

queueable : Bulkhead → Bool
queueable b = ltb 0 b.max_wait || enabled b.codel

unfoldable pub acquire : Bulkhead → ℕ → Bulkhead × Admission × List Hook
unfolding queueable
acquire b now =
    if ltb b.cur b.max_conc
    then (record b { cur = b.cur + 1 }, acquired, on_bulkhead_acquired ∷ [])
    else if leb b.max_queue (length b.waiters) || not (queueable b)
    then (b, full, on_bulkhead_full ∷ [])
    else (
      record b {
        waiters = b.waiters ++ record { name = b.allocated; enqueued = now; shed = false } ∷ [];
        allocated = b.allocated + 1;
      },
      queued b.allocated,
      on_bulkhead_queued ∷ [],
    )

standing_delay_locked : Bulkhead → ℕ → ℕ
standing_delay_locked b now = elim (get_elem? b.waiters 0) [ none ↦ 0 | some w ↦ now - w.enqueued ]

abbrev is_stale : ℕ → ℕ → Option Waiter → Bool
is_stale now slough none = false
is_stale now slough (some w) = ltb slough (now - w.enqueued)

-- The loop of codelShedStaleLocked. Each round takes a waiter away.
shed_rounds : ℕ → Bulkhead → ℕ → ℕ → Bulkhead
unfolding close_waiter_at
shed_rounds zero b now slough = b
shed_rounds (suc n) b now slough =
    let next = shed_rounds n (close_waiter_at b 0 true) now slough in
    if is_stale now slough (get_elem? b.waiters 0) then next else b

-- The overload latch, refreshed from the standing delay of the queue.
unfoldable pub observed : Bulkhead → ℕ → Bulkhead
unfolding standing_delay_locked
observed b now = record b { codel = Codel.observe b.codel (standing_delay_locked b now) now }

unfoldable pub codel_shed_stale_locked : Bulkhead → ℕ → Bulkhead
unfolding shed_rounds
codel_shed_stale_locked b now =
    let b' = observed b now in
    if enabled b.codel
    then (if b'.codel.overloaded
        then shed_rounds (length b'.waiters) b' now (slough_timeout b'.codel)
        else b')
    else b

next_waiter_index_locked : Bulkhead → ℕ
next_waiter_index_locked b = if is_overloaded b.codel then length b.waiters - 1 else 0

-- What handOffLocked does after the controlled-delay pass.
grant_or_return : Bulkhead → Bulkhead × Bool
unfolding close_waiter_at next_waiter_index_locked
grant_or_return b =
    if ltb 0 (length b.waiters)
    then (close_waiter_at b (next_waiter_index_locked b) false, true)
    else if ltb 0 b.cur
    then (record b { cur = b.cur - 1 }, true)
    else (b, false)

unfoldable pub release_slot : Bulkhead → ℕ → Bulkhead × Bool
unfolding codel_shed_stale_locked grant_or_return
release_slot b now = grant_or_return (codel_shed_stale_locked b now)

unfoldable pub release : Bulkhead → ℕ → Bulkhead × List Hook
unfolding release_slot
release b now =
    let (b', released) = release_slot b now in
    (b', if released then on_bulkhead_released ∷ [] else [])

-- The end of a call of Acquire that was queued: its waiter object goes with it.
pub data Outcome : Type 0 where
  returns : Option Error → List Hook → Outcome

abbrev resolve_outcome : Waiter → Outcome
resolve_outcome w =
    if w.shed
    then returns (some err_co_del_shed) (on_co_del_shed ∷ [])
    else returns none (on_bulkhead_acquired ∷ [])

-- `none`: the channel of the waiter is not closed, so the case of select is not taken.
unfoldable pub on_ready : Bulkhead → ℕ → Option (Bulkhead × Outcome)
on_ready b n = elim (find n b.woken) [
  | none ↦ none
  | some w ↦ some (record b { woken = remove n b.woken }, resolve_outcome w)
]

abandon : Bulkhead → ℕ → Option Bulkhead
abandon b n = elim (find n b.waiters) [
  | none ↦ none
  | some w ↦ some (record b { waiters = remove n b.waiters })
]

-- `none`: no call waits under that name.
unfoldable pub on_timeout : Bulkhead → ℕ → Option (Bulkhead × Outcome)
unfolding abandon on_ready
on_timeout b n = elim (abandon b n) [
  | some b' ↦ some (b', returns (some err_bulkhead_timeout) (on_bulkhead_timeout ∷ []))
  | none ↦ on_ready b n
]

abbrev cancelled_after : Bulkhead → Waiter → ℕ → Bulkhead × Outcome
cancelled_after b w now =
    if w.shed
    then (b, returns (some err_co_del_shed) (on_co_del_shed ∷ []))
    else ((release_slot b now).0, returns (some context_error) [])

unfoldable pub on_done : Bulkhead → ℕ → ℕ → Option (Bulkhead × Outcome)
unfolding abandon release_slot
on_done b n now = elim (abandon b n) [
  | some b' ↦ some (b', returns (some context_error) [])
  | none ↦ elim (find n b.woken) [
    | none ↦ none
    | some w ↦ some (cancelled_after (record b { woken = remove n b.woken }) w now)
  ]
]

unfoldable pub is_full : Bulkhead → Bool
is_full b = leb b.max_conc b.cur

unfoldable pub in_use : Bulkhead → ℕ
in_use b = b.cur

unfoldable pub queued_callers : Bulkhead → ℕ
queued_callers b = length b.waiters

unfoldable pub overloaded : Bulkhead → Bool
overloaded b = ltb 0 (length b.waiters) && is_overloaded b.codel
