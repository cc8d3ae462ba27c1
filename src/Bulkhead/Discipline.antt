-- ===== src/Bulkhead/Discipline.antt =====
-- bulkhead.go: whom a freed slot goes to, and who is shed on the way.
use mathlib.Core.List.{append-nil}
use r8e.Prelude.{
  ℕ, suc, ◌-◌, ◌<◌, ◌≡◌, refl, ap, ◌∙◌, Bool, true, false, some, List, [], ◌∷◌, ◌++◌, map, reverse,
  arith, length, get_elem?, remove_at, length-append, All, ◌⊎◌, inl, inr,
}
use r8e.Codel.{is_overloaded}
use r8e.Bulkhead.Queue.{Waiter}
use r8e.Bulkhead.{
  Bulkhead, close_waiter_at, is_stale, codel_shed_stale_locked, grant_or_return,
  next_waiter_index_locked, release_slot,
}

abbrev pub flagged : Bool → Waiter → Waiter
flagged shed w = record w { shed = shed }

-- A wait beyond the slough timeout.
abbrev pub Stale : ℕ → ℕ → Waiter → Type 0
Stale now slough w = slough < now - w.enqueued

-- What the pass makes of a queue.
abbrev pub Sheds : ℕ → ℕ → Bulkhead → Bulkhead → Type 0
Sheds now slough b b' =
    (dropped : List Waiter) × (kept : List Waiter) × (b.waiters ≡ dropped ++ kept)
    × (b' ≡ record b { waiters = kept; woken = reverse (map (flagged true) dropped) ++ b.woken })
    × All (Stale now slough) dropped
    × (is_stale now slough (get_elem? kept 0) ≡ false)

get_elem?_last {ℓ} :
    {A : Type ℓ} (xs : List A) (a : A) → get_elem? (xs ++ a ∷ []) (length xs) ≡ some a
get_elem?_last [] a = refl
get_elem?_last (x ∷ xs) a = get_elem?_last xs a

remove_at_last {ℓ} : {A : Type ℓ} (xs : List A) (a : A) → remove_at (xs ++ a ∷ []) (length xs) ≡ xs
remove_at_last [] a = refl
remove_at_last (x ∷ xs) a = ap (◌∷◌ x) (remove_at_last xs a)

-- The waiter at the back is the newest.
grant_newest :
    (b : Bulkhead) (ws : List Waiter) (w : Waiter)
    → is_overloaded b.codel ≡ true
    → b.waiters ≡ ws ++ w ∷ []
    → grant_or_return b ≡ (record b { waiters = ws; woken = flagged false w ∷ b.woken }, true)
unfolding grant_or_return next_waiter_index_locked close_waiter_at
grant_newest b ws w over e =
    let n : length b.waiters ≡ suc (length ws) =
      omega (arith, ap length e, length-append ws (w ∷ [])) in
    ground (
      arith,
      n,
      ap (λ l. get_elem? l (length ws)) e ∙ get_elem?_last ws w,
      ap (λ l. remove_at l (length ws)) e ∙ remove_at_last ws w,
    )

grant_oldest :
    (b : Bulkhead) (w : Waiter) (ws : List Waiter)
    → is_overloaded b.codel ≡ false
    → b.waiters ≡ w ∷ ws
    → grant_or_return b ≡ (record b { waiters = ws; woken = flagged false w ∷ b.woken }, true)
unfolding grant_or_return next_waiter_index_locked close_waiter_at
grant_oldest b w ws calm e = ground arith

-- A freed slot goes to the oldest caller that the pass left in the queue; while the queue counts as
-- overloaded, it goes to the newest. No other caller moves, and the slot stays in use.
pub release_slot_serves :
    (b : Bulkhead) (now : ℕ) (front back : List Waiter) (w : Waiter)
    → (codel_shed_stale_locked b now).waiters ≡ front ++ w ∷ back
    → ((is_overloaded (codel_shed_stale_locked b now).codel ≡ false) × (front ≡ []))
      ⊎ ((is_overloaded (codel_shed_stale_locked b now).codel ≡ true) × (back ≡ []))
    → release_slot b now ≡ (
      record (codel_shed_stale_locked b now) {
        waiters = front ++ back;
        woken = flagged false w ∷ (codel_shed_stale_locked b now).woken;
      },
      true,
    )
unfolding release_slot
release_slot_serves b now front back w e (inl (calm, first)) =
    rw first
      (grant_oldest (codel_shed_stale_locked b now) w back calm (e ∙ ap (λ l. l ++ w ∷ back) first))
release_slot_serves b now front back w e (inr (over, last)) =
    rw (last, append-nil)
      (grant_newest (codel_shed_stale_locked b now) front w over
        (e ∙ ap (λ l. front ++ w ∷ l) last))
