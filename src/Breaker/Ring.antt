-- ===== src/Breaker/Ring.antt =====
-- circuitbreaker.go: the ring of slowCallWindow, read backwards from the next slot to be written.
use mathlib.Core.List.{append_assoc, append-nil, reverse-append, reverse-cons}
use r8e.Prelude.{
  ℕ, zero, suc, ◌+◌, ◌%◌, ◌≤◌, ◌≡◌, ◌≢◌, refl, sym, ap, ◌∙◌, ap₂, Bool, false, List, [], ◌∷◌, ◌++◌,
  reverse, min, max, arith, length, take, replicate, get_or, set, if◌then◌else◌, length-append,
  length-reverse, length-replicate,
}
use r8e.Breaker.Window.{SlowCallWindow, resized, evicted, written}
use r8e.Breaker.Verdicts.{
  count_slow, count_slow-append, count_slow-replicate, padded, take_snoc, padded_last,
  snoc_injective, get_or-middle, set-middle,
}

-- The ring, cut at the next slot to be written, read backwards from there.
pub record Holds (m : ℕ) (hs : List Bool) (w : SlowCallWindow) : Type 0 where
  pub front : List Bool
  pub old : Bool
  pub back : List Bool
  pub ring_cut : w.ring ≡ front ++ (old ∷ back)
  pub pos_cut : w.pos ≡ length front
  pub size : length front + length back ≡ m
  pub recent : (reverse front ++ reverse back) ++ old ∷ [] ≡ padded (suc m) hs
  pub filled_min : w.filled ≡ min (length hs) (suc m)
  pub slow_count : w.slow ≡ count_slow w.ring

take-replicate {ℓ} : {A : Type ℓ} (n : ℕ) (a : A) → take n (replicate n a) ≡ replicate n a
take-replicate zero a = refl
take-replicate (suc n) a = ap (◌∷◌ a) (take-replicate n a)

replicate_snoc {ℓ} : {A : Type ℓ} (n : ℕ) (a : A) → replicate n a ++ a ∷ [] ≡ replicate (suc n) a
replicate_snoc zero a = refl
replicate_snoc (suc n) a = ap (◌∷◌ a) (replicate_snoc n a)

reverse-replicate {ℓ} : {A : Type ℓ} (n : ℕ) (a : A) → reverse (replicate n a) ≡ replicate n a
reverse-replicate zero a = refl
reverse-replicate (suc n) a =
    reverse-cons a (replicate n a) ∙ rw (reverse-replicate n a) (replicate_snoc n a)

pub fresh-Holds :
    (m : ℕ) (w : SlowCallWindow) (size : ℕ)
    → max 1 size ≡ suc m
    → length w.ring ≢ suc m
    → Holds m [] (resized w size)
unfolding resized count_slow
fresh-Holds m w size e ne =
    let r : resized w size
        ≡ record { ring = replicate (suc m) false; pos = 0; filled = 0; slow = 0 } =
      ground arith in
    rw r (record {
      front = [];
      old = false;
      back = replicate m false;
      ring_cut = refl;
      pos_cut = refl;
      size = omega (arith, length-replicate m false);
      recent =
          rw (reverse-replicate m false, take-replicate (suc m) false) (replicate_snoc m false);
      filled_min = omega arith;
      slow_count = omega (arith, count_slow-replicate m);
    })

pub kept-Holds :
    (m : ℕ) (hs : List Bool) (w : SlowCallWindow) (size : ℕ)
    → max 1 size ≡ suc m
    → Holds m hs w
    → resized w size ≡ w
unfolding resized
kept-Holds m hs w size e h =
    ground (arith, ap length h.ring_cut, length-append h.front (h.old ∷ h.back))

-- A slot is free for the verdict that follows.
module _ (m : ℕ) (hs : List Bool) (w : SlowCallWindow) (h : Holds m hs w) where
  open h use {front, old, back}

  ring_length : length w.ring ≡ suc m
  ring_length = omega (arith, ap length h.ring_cut, length-append front (old ∷ back), h.size)

  pub ring_slow : count_slow w.ring ≡ count_slow front + ((if old then 1 else 0) + count_slow back)
  unfolding count_slow
  ring_slow = ap count_slow h.ring_cut ∙ count_slow-append front (old ∷ back)

  old_read : get_or w.ring w.pos false ≡ old
  old_read = rw (h.ring_cut, h.pos_cut) (get_or-middle front back old false)

  others_length : length (reverse front ++ reverse back) ≡ m
  others_length = omega (
    arith,
    length-append (reverse front) (reverse back),
    length-reverse front,
    length-reverse back,
    h.size,
  )

  others : reverse front ++ reverse back ≡ take m (hs ++ replicate (suc m) false)
  others = sym (take_snoc m _ _ old (sym h.recent) others_length)

  -- While the window fills up, the slot holds no verdict yet.
  old_false : length hs ≤ m → old ≡ false
  old_false few =
      (snoc_injective _ _ old false (h.recent ∙ padded_last m (suc m) hs few (omega arith))).1

  evicted_slow : (evicted w).slow ≡ count_slow front + count_slow back
  unfolding evicted
  evicted_slow =
      ground (arith, ring_length, ring_slow, old_read, old_false, h.filled_min, h.slow_count)

  evicted_filled : (evicted w).filled ≡ min (suc (length hs)) (suc m)
  unfolding evicted
  evicted_filled = ground (arith, ring_length, h.filled_min)

  evicted_ring : ((evicted w).ring ≡ w.ring) × ((evicted w).pos ≡ w.pos)
  unfolding evicted
  evicted_ring = ground arith

  ring_written : (v : Bool) → set w.ring w.pos v ≡ front ++ (v ∷ back)
  ring_written v = rw (h.ring_cut, h.pos_cut) (set-middle front back old v)

  written_slow : (v : Bool) → (written (evicted w) v).slow ≡ count_slow (front ++ (v ∷ back))
  unfolding written count_slow
  written_slow v = ground (arith, evicted_slow, count_slow-append front (v ∷ back))

  written_ring : (v : Bool) → (written (evicted w) v).ring ≡ front ++ (v ∷ back)
  unfolding written
  written_ring v = rw (evicted_ring.0, evicted_ring.1) (ring_written v)

  written_pos : (v : Bool) → (written (evicted w) v).pos ≡ (length front + 1) % suc m
  unfolding written
  written_pos v = rw (evicted_ring.0, evicted_ring.1, ring_length, h.pos_cut) refl

  written_filled : (v : Bool) → (written (evicted w) v).filled ≡ min (suc (length hs)) (suc m)
  unfolding written
  written_filled v = evicted_filled

-- The slot after the written one is the next to go.
advanced-Holds :
    (m : ℕ) (hs : List Bool) (w : SlowCallWindow) (v o : Bool) (back : List Bool) (h : Holds m hs w)
    → h.back ≡ o ∷ back
    → Holds m (v ∷ hs) (written (evicted w) v)
advanced-Holds m hs w v o back h e = record {
  front = front ++ v ∷ [];
  old = o;
  back = back;
  ring_cut = written_ring m hs w h v ∙ rw (e, append_assoc) refl;
  pos_cut =
      written_pos m hs w h v ∙ grind (arith, h.size, ap length e, length-append front (v ∷ []));
  size = ground (arith, h.size, ap length e, length-append front (v ∷ []));
  recent =
      ap (λ l. (l ++ reverse back) ++ o ∷ []) (reverse-append front (v ∷ []))
      ∙ ap (◌∷◌ v) (
          append_assoc (reverse front) (reverse back) (o ∷ [])
          ∙ ap (◌++◌ (reverse front)) (sym (reverse-cons o back) ∙ ap reverse (sym e))
          ∙ others m hs w h);
  filled_min = written_filled m hs w h v;
  slow_count = rw (written_ring m hs w h v) (written_slow m hs w h v);
}
  where
    open h use {front}

-- The last slot was written, so the first is the next to go.
wrapped-Holds :
    (m : ℕ) (hs : List Bool) (w : SlowCallWindow) (v : Bool) (front : List Bool) (h : Holds m hs w)
    → h.back ≡ []
    → h.front ≡ front
    → Holds m (v ∷ hs) (written (evicted w) v)
wrapped-Holds m hs w v [] h e f = record {
  front = [];
  old = v;
  back = [];
  ring_cut = written_ring m hs w h v ∙ rw (e, f) refl;
  pos_cut = written_pos m hs w h v ∙ grind (arith, h.size, ap length e, ap length f);
  size = omega (arith, h.size, ap length e, ap length f);
  recent = ap (◌∷◌ v) (ap₂ (λ a b. reverse a ++ reverse b) (sym f) (sym e) ∙ others m hs w h);
  filled_min = written_filled m hs w h v;
  slow_count = rw (written_ring m hs w h v) (written_slow m hs w h v);
}
wrapped-Holds m hs w v (x ∷ front) h e f = record {
  front = [];
  old = x;
  back = front ++ v ∷ [];
  ring_cut = written_ring m hs w h v ∙ rw (e, f) refl;
  pos_cut = written_pos m hs w h v ∙ grind (arith, h.size, ap length e, ap length f);
  size = omega (arith, h.size, ap length e, ap length f, length-append front (v ∷ []));
  recent =
      ap (λ l. l ++ x ∷ []) (reverse-append front (v ∷ []))
      ∙ ap (◌∷◌ v) (
          sym (reverse-cons x front)
          ∙ sym (append-nil (reverse (x ∷ front)))
          ∙ ap₂ (λ a b. reverse a ++ reverse b) (sym f) (sym e)
          ∙ others m hs w h);
  filled_min = written_filled m hs w h v;
  slow_count = rw (written_ring m hs w h v) (written_slow m hs w h v);
}

pub written-Holds :
    (m : ℕ) (hs : List Bool) (w : SlowCallWindow) (v : Bool) (back : List Bool) (h : Holds m hs w)
    → h.back ≡ back
    → Holds m (v ∷ hs) (written (evicted w) v)
written-Holds m hs w v [] h e = wrapped-Holds m hs w v h.front h e refl
written-Holds m hs w v (o ∷ back) h e = advanced-Holds m hs w v o back h e
