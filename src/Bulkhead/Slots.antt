-- ===== src/Bulkhead/Slots.antt =====
-- bulkhead.go: no slot is lost or made up, and none stays free while a caller waits.
use r8e.Prelude.{
  ℕ, zero, suc, ◌+◌, ◌-◌, ◌≤◌, ◌<◌, ◌≡◌, refl, true, false, some, List, [], ◌∷◌, arith, length,
  length-remove_at, get_elem?_of_lt, ◌⊎◌, inl, inr, if◌then◌else◌, Option-cases, subst,
}
use r8e.Codel.{slough_timeout}
use r8e.Bulkhead.Options.{BulkheadOption}
use r8e.Bulkhead.Queue.{Waiter, find, remove}
use r8e.Bulkhead.{
  Bulkhead, new_bulkhead, acquire, release, release_slot, on_ready, on_timeout, on_done,
  reconfigure, close_waiter_at, drain_rounds, drain_waiters, shed_rounds, observed,
  codel_shed_stale_locked, grant_or_return, abandon, next_waiter_index_locked, Outcome,
}
use r8e.Bulkhead.System.{
  System, Step, acquires, releases, wakes, times_out, cancels, reconfigures, Reach, start, later,
  granted, admitted,
}

-- Slots that were granted to callers that have not woken up yet.
pub pending : List Waiter → ℕ
pending [] = 0
pending (w ∷ ws) = (if w.shed then 0 else 1) + pending ws

pending-remove :
    (n : ℕ) (ws : List Waiter) (w : Waiter)
    → find n ws ≡ some w
    → pending ws ≡ (if w.shed then 0 else 1) + pending (remove n ws)
unfolding pending find remove
pending-remove n [] w e = cc
pending-remove n (x ∷ ws) w e = ground (arith, pending-remove n ws w)

empty_of_length {ℓ} : {A : Type ℓ} (xs : List A) → length xs ≤ 0 → xs ≡ []
empty_of_length [] h = refl
empty_of_length (x ∷ xs) h = absurd (omega arith)

remove_nil : (n : ℕ) → remove n [] ≡ []
unfolding remove
remove_nil n = refl

-- `held` slots are in the hands of callers, or of the operation under way.
pub record Inv (limit held : ℕ) (b : Bulkhead) : Type 0 where
  pub conserved : b.cur ≡ held + pending b.woken
  pub busy : (b.max_conc ≤ b.cur) ⊎ (b.waiters ≡ [])
  pub capped : b.cur ≤ limit
  pub capacity : b.max_conc ≤ limit

new_bulkhead-Inv :
    (limit max_concurrent : ℕ) (opts : List BulkheadOption)
    → max_concurrent ≤ limit
    → Inv limit 0 (new_bulkhead max_concurrent opts)
unfolding new_bulkhead pending
new_bulkhead-Inv limit max_concurrent opts h = ground arith

-- A waiter is shed.
shed-Inv :
    (limit held : ℕ) (b : Bulkhead) → Inv limit held b → Inv limit held (close_waiter_at b 0 true)
unfolding close_waiter_at pending
shed-Inv limit held b v = ground arith

shed_rounds-Inv :
    (n limit held now slough : ℕ) (b : Bulkhead)
    → Inv limit held b
    → Inv limit held (shed_rounds n b now slough)
unfolding shed_rounds
shed_rounds-Inv zero limit held now slough b v = v
shed_rounds-Inv (suc n) limit held now slough b v = ground (
  arith,
  shed_rounds-Inv n limit held now slough (close_waiter_at b 0 true) (shed-Inv limit held b v),
)

observed-Inv :
    (limit held now : ℕ) (b : Bulkhead) → Inv limit held b → Inv limit held (observed b now)
unfolding observed
observed-Inv limit held now b v = ground arith

shed_stale-Inv :
    (limit held now : ℕ) (b : Bulkhead)
    → Inv limit held b
    → Inv limit held (codel_shed_stale_locked b now)
unfolding codel_shed_stale_locked
shed_stale-Inv limit held now b v =
    let b' = observed b now in
    let kept = observed-Inv limit held now b v in
    ground (
      arith,
      kept,
      shed_rounds-Inv (length b'.waiters) limit held now (slough_timeout b'.codel) b' kept,
    )

-- One of the held slots goes to a waiter.
granted-Inv :
    (limit held idx : ℕ) (b : Bulkhead)
    → idx < length b.waiters
    → Inv limit (suc held) b
    → Inv limit held (close_waiter_at b idx false)
unfolding close_waiter_at pending
granted-Inv limit held idx b h v =
    let (w, found) = get_elem?_of_lt b.waiters idx h in rw (found, close_waiter_at) (ground arith)

-- One of the held slots goes to a waiter or back to the pool.
grant_or_return-Inv :
    (limit held : ℕ) (b : Bulkhead) → Inv limit (suc held) b → Inv limit held (grant_or_return b).0
unfolding grant_or_return next_waiter_index_locked
grant_or_return-Inv limit held b v =
    ground (arith, granted-Inv limit held (next_waiter_index_locked b) b, empty_of_length b.waiters)

pub release_slot-Inv :
    (limit held now : ℕ) (b : Bulkhead)
    → Inv limit (suc held) b
    → Inv limit held (release_slot b now).0
unfolding release_slot
release_slot-Inv limit held now b v =
    grant_or_return-Inv limit held _ (shed_stale-Inv limit (suc held) now b v)

acquire-Inv :
    (limit held now : ℕ) (b : Bulkhead)
    → Inv limit held b
    → Inv limit (held + admitted (acquire b now).1) (acquire b now).0
unfolding acquire
acquire-Inv limit held now b v = ground arith

on_ready-Inv :
    (limit held n : ℕ) (b b' : Bulkhead) (o : Outcome)
    → Inv limit held b
    → on_ready b n ≡ some (b', o)
    → Inv limit (held + granted o) b'
unfolding on_ready
on_ready-Inv limit held n b b' o v e = elim (Option-cases (find n b.woken)) [
  | inl f ↦ ground arith
  | inr (w, f) ↦ ground (arith, pending-remove n b.woken w f)
]

on_timeout-Inv :
    (limit held n : ℕ) (b b' : Bulkhead) (o : Outcome)
    → Inv limit held b
    → on_timeout b n ≡ some (b', o)
    → Inv limit (held + granted o) b'
unfolding on_timeout abandon
on_timeout-Inv limit held n b b' o v e = elim (Option-cases (find n b.waiters)) [
  | inl f ↦ ground (arith, on_ready-Inv limit held n b b' o v)
  | inr (w, f) ↦ ground (arith, remove_nil n)
]

on_done-Inv :
    (limit held n now : ℕ) (b b' : Bulkhead) (o : Outcome)
    → Inv limit held b
    → on_done b n now ≡ some (b', o)
    → Inv limit (held + granted o) b'
unfolding on_done abandon
on_done-Inv limit held n now b b' o v e = elim (Option-cases (find n b.waiters)) [
  | inr (w, f) ↦ ground (arith, remove_nil n)
  | inl f ↦ elim (Option-cases (find n b.woken)) [
    | inl g ↦ ground arith
    | inr (w, g) ↦ ground (
      arith,
      pending-remove n b.woken w g,
      release_slot-Inv limit held now (record b { woken = remove n b.woken }),
    )
  ]
]

-- New capacity goes to the waiters until one of the two is used up.
drain_rounds-Inv :
    (n limit held : ℕ) (b : Bulkhead)
    → b.cur ≡ held + pending b.woken
    → b.cur ≤ limit
    → b.max_conc ≤ limit
    → length b.waiters ≤ n
    → Inv limit held (drain_rounds n b)
unfolding drain_rounds close_waiter_at pending
drain_rounds-Inv zero limit held b c k m l = record {
  conserved = c;
  busy = inr (empty_of_length b.waiters l);
  capped = k;
  capacity = m;
}
drain_rounds-Inv (suc n) limit held b c k m l = ground (
  arith,
  drain_rounds-Inv n limit held (close_waiter_at (record b { cur = b.cur + 1 }) 0 false),
  get_elem?_of_lt b.waiters 0,
  length-remove_at b.waiters 0,
  empty_of_length b.waiters,
)

reconfigure-Inv :
    (limit held max_concurrent : ℕ) (opts : List BulkheadOption) (b : Bulkhead)
    → max_concurrent ≤ limit
    → Inv limit held b
    → Inv limit held (reconfigure b max_concurrent opts)
unfolding reconfigure drain_waiters
reconfigure-Inv limit held max_concurrent opts b h v =
    drain_rounds-Inv (length b.waiters) limit held _ v.conserved v.capped h (omega arith)

abbrev pub SlotsInv : ℕ → System → Type 0
SlotsInv limit s = Inv limit s.holders s.bulkhead

pub Step-Inv : {limit : ℕ} {s t : System} → Step limit s t → SlotsInv limit s → SlotsInv limit t
unfolding release
Step-Inv {limit} (acquires s now) v = acquire-Inv limit s.holders now s.bulkhead v
Step-Inv {limit} (releases s now h) v =
    let e : s.holders ≡ suc (s.holders - 1) = omega arith in
    release_slot-Inv limit (s.holders - 1) now s.bulkhead (subst (λ k. Inv limit k s.bulkhead) e v)
Step-Inv {limit} (wakes s n b o e) v = on_ready-Inv limit s.holders n s.bulkhead b o v e
Step-Inv {limit} (times_out s n b o e) v = on_timeout-Inv limit s.holders n s.bulkhead b o v e
Step-Inv {limit} (cancels s n now b o e) v = on_done-Inv limit s.holders n now s.bulkhead b o v e
Step-Inv {limit} (reconfigures s m opts h) v = reconfigure-Inv limit s.holders m opts s.bulkhead h v

-- In every order of the callers' critical sections, with capacities of `limit` at most, the count of
-- slots in use is the number of holders and of grants that were not picked up yet; it is `limit` at
-- most; and while a caller waits, no slot below the capacity is free.
pub Reach-Inv : {limit : ℕ} {s : System} → Reach limit s → SlotsInv limit s
Reach-Inv {limit} (start m opts h) = new_bulkhead-Inv limit m opts h
Reach-Inv (later r st) = Step-Inv st (Reach-Inv r)
