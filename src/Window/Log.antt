-- ===== src/Window/Log.antt =====
-- throttle.go and slo.go: the window against the log of everything that was observed.
use r8e.Prelude.{
  ℕ, zero, suc, ◌+◌, ◌%◌, ◌≤◌, ◌≡◌, refl, sym, ap, ap₂, ◌∙◌, subst, Bool, true, false, ◌&&◌, List,
  [], ◌∷◌, ltb, ◌==◌, arith, ◌⊎◌, inl, inr, Bool-cases, if◌then◌else◌,
}
use r8e.Window.{
  Bucket, Buckets, no_buckets, bucket_for, observe, live, amount, sum_to, sums, epoch_of,
}

-- What was observed, the latest first: the epoch and the amounts.
pub record Entry : Type 0 where
  pub epoch : ℕ
  pub total : ℕ
  pub marked : ℕ

-- The amounts of the entries in the window that ends with an epoch.
unfoldable pub logged : Bool → List Entry → ℕ → ℕ
logged all [] current = 0
logged all (e ∷ log) current =
    let before = logged all log current in
    if live e.epoch current then before + amount all e.total e.marked else before

-- The epochs of the log do not go back; the latest is `newest` or earlier.
abbrev pub Ordered : ℕ → List Entry → Type 0
Ordered newest [] = Unit
Ordered newest (e ∷ log) = (e.epoch ≤ newest) × Ordered e.epoch log

unfoldable pub observe_all : Buckets → List Entry → Buckets
observe_all buckets [] = buckets
observe_all buckets (e ∷ log) = observe (observe_all buckets log) e.epoch e.total e.marked

-- The amounts of the entries in one slot.
slot : Bool → ℕ → List Entry → ℕ → ℕ
slot all i [] current = 0
slot all i (e ∷ log) current =
    let before = slot all i log current in
    if (e.epoch % 10 == i) && live e.epoch current
    then before + amount all e.total e.marked
    else before

held : Bool → Bucket → ℕ → ℕ
held all b current = if live b.epoch current then amount all b.total b.marked else 0

-- One bucket against its slot, after the log with the epoch `newest`.
record Tracks (newest : ℕ) (log : List Entry) (i : ℕ) (b : Bucket) : Type 0 where
  pub owned : (b.epoch % 10 ≡ i) ⊎ ((b.total ≡ 0) × (b.marked ≡ 0))
  pub past : b.epoch ≤ newest
  pub agrees :
      (all : Bool) (current : ℕ) → newest ≤ current → held all b current ≡ slot all i log current

Tracks-none : (i : ℕ) → Tracks 0 [] i (no_buckets i)
unfolding no_buckets held slot live
Tracks-none i = record {
  owned = inr (refl, refl);
  past = omega arith;
  agrees = λ all current h. ground arith;
}

amount-add :
    (all : Bool) (a b c d : ℕ) → amount all (a + c) (b + d) ≡ amount all a b + amount all c d
amount-add true a b c d = refl
amount-add false a b c d = refl

amount-zero : (all : Bool) (a b : ℕ) → a ≡ 0 → b ≡ 0 → amount all a b ≡ 0
amount-zero true a b h k = h
amount-zero false a b h k = k

-- A bucket of an earlier epoch in the same slot is out of the window.
stale :
    (newest : ℕ) (log : List Entry) (b : Bucket) (e : Entry)
    → (b.epoch == e.epoch) ≡ false
    → newest ≤ e.epoch
    → Tracks newest log (e.epoch % 10) b
    → (all : Bool) (current : ℕ) → e.epoch ≤ current
    → held all b current ≡ 0
unfolding held live
stale newest log b e other h v all current k = elim v.owned [
  | inl m ↦ ground (arith, other, m, v.past)
  | inr (t, u) ↦ ground (arith, amount-zero all b.total b.marked t u)
]

Tracks-other :
    (newest : ℕ) (log : List Entry) (i : ℕ) (b : Bucket) (e : Entry)
    → (e.epoch % 10 == i) ≡ false
    → newest ≤ e.epoch
    → Tracks newest log i b
    → Tracks e.epoch (e ∷ log) i b
unfolding slot
Tracks-other newest log i b e other h v = record {
  owned = v.owned;
  past = omega (arith, v.past);
  agrees = λ all current k. rw other (v.agrees all current (omega arith));
}

-- The bucket after an update of its own epoch, and after a reset.
Tracks-same :
    (newest : ℕ) (log : List Entry) (b : Bucket) (e : Entry)
    → b.epoch ≡ e.epoch
    → newest ≤ e.epoch
    → Tracks newest log (e.epoch % 10) b
    → Tracks e.epoch
        (e ∷ log)
        (e.epoch % 10)
        (record b { total = b.total + e.total; marked = b.marked + e.marked })
unfolding slot held live
Tracks-same newest log b e same h v = record {
  owned = inl (ap (λ (n : ℕ). n % 10) same);
  past = omega arith;
  agrees = λ all current k. ground (
    arith,
    same,
    v.agrees all current (omega arith),
    amount-add all b.total b.marked e.total e.marked,
  );
}

Tracks-reset :
    (newest : ℕ) (log : List Entry) (b : Bucket) (e : Entry)
    → (b.epoch == e.epoch) ≡ false
    → newest ≤ e.epoch
    → Tracks newest log (e.epoch % 10) b
    → Tracks e.epoch
        (e ∷ log)
        (e.epoch % 10)
        (record { epoch = e.epoch; total = 0 + e.total; marked = 0 + e.marked })
unfolding slot held live
Tracks-reset newest log b e other h v = record {
  owned = inl refl;
  past = omega arith;
  agrees = λ all current k. ground (
    arith,
    sym (v.agrees all current (omega arith)) ∙ stale newest log b e other h v all current k,
    amount-add all 0 0 e.total e.marked,
    amount-zero all 0 0 refl refl,
  );
}

updated : Bucket → Entry → Bucket
updated b e =
    let bucket =
      if b.epoch == e.epoch then b else record { epoch = e.epoch; total = 0; marked = 0 } in
    record bucket { total = bucket.total + e.total; marked = bucket.marked + e.marked }

Tracks-observe :
    (newest : ℕ) (log : List Entry) (buckets : Buckets) (e : Entry)
    → newest ≤ e.epoch
    → ((i : ℕ) → Tracks newest log i (buckets i))
    → (i : ℕ) → Tracks e.epoch (e ∷ log) i (observe buckets e.epoch e.total e.marked i)
unfolding observe bucket_for updated
Tracks-observe newest log buckets e h v i = elim (Bool-cases (i == e.epoch % 10)) [
  | inl t ↦
      let here : e.epoch % 10 ≡ i = ground (arith, t) in
      rw t (
        subst (λ (j : ℕ). Tracks e.epoch (e ∷ log) j (updated (buckets (e.epoch % 10)) e)) here
          (elim (Bool-cases ((buckets (e.epoch % 10)).epoch == e.epoch)) [
            | inl s ↦ rw s (
                Tracks-same newest log (buckets (e.epoch % 10)) e (ground (arith, s)) h
                  (v (e.epoch % 10)))
            | inr s ↦
                rw s (Tracks-reset newest log (buckets (e.epoch % 10)) e s h (v (e.epoch % 10)))
          ]))
  | inr f ↦
      let other : (e.epoch % 10 == i) ≡ false = ground (arith, f) in
      rw f (Tracks-other newest log i (buckets i) e other h (v i))
]

Tracks-later :
    (newest later : ℕ) (log : List Entry) (i : ℕ) (b : Bucket)
    → newest ≤ later
    → Tracks newest log i b
    → Tracks later log i b
Tracks-later newest later log i b h v = record {
  owned = v.owned;
  past = omega (arith, v.past);
  agrees = λ all current k. v.agrees all current (omega arith);
}

observe_all-Tracks :
    (newest : ℕ) (log : List Entry)
    → Ordered newest log
    → (i : ℕ) → Tracks newest log i (observe_all no_buckets log i)
unfolding observe_all
observe_all-Tracks newest [] o i = Tracks-later 0 newest [] i _ (omega arith) (Tracks-none i)
observe_all-Tracks newest (e ∷ log) (h, o) i = Tracks-later e.epoch newest (e ∷ log) i _ h (
    Tracks-observe e.epoch log (observe_all no_buckets log) e (omega arith)
      (observe_all-Tracks e.epoch log o) i)

-- The sum over the first `n` slots.
slots : Bool → ℕ → List Entry → ℕ → ℕ
slots all zero log current = 0
slots all (suc n) log current = slots all n log current + slot all n log current

slots-empty : (all : Bool) (n current : ℕ) → slots all n [] current ≡ 0
unfolding slots slot
slots-empty all zero current = refl
slots-empty all (suc n) current = omega (arith, slots-empty all n current)

slots-∷ :
    (all : Bool) (n : ℕ) (e : Entry) (log : List Entry) (current : ℕ)
    → slots all n (e ∷ log) current ≡ (
        if ltb (e.epoch % 10) n && live e.epoch current
        then slots all n log current + amount all e.total e.marked
        else slots all n log current)
unfolding slots slot
slots-∷ all zero e log current = ground arith
slots-∷ all (suc n) e log current = ground (arith, slots-∷ all n e log current)

slots-logged :
    (all : Bool) (log : List Entry) (current : ℕ)
    → slots all 10 log current ≡ logged all log current
unfolding logged
slots-logged all [] current = slots-empty all 10 current
slots-logged all (e ∷ log) current =
    let below : ltb (e.epoch % 10) 10 ≡ true = ground arith in
    slots-∷ all 10 e log current ∙ ground (arith, below, slots-logged all log current)

sum_to-slots :
    (all : Bool) (n newest current : ℕ) (log : List Entry) (buckets : Buckets)
    → newest ≤ current
    → ((i : ℕ) → Tracks newest log i (buckets i))
    → sum_to all n buckets current ≡ slots all n log current
unfolding sum_to slots held
sum_to-slots all zero newest current log buckets h v = refl
sum_to-slots all (suc n) newest current log buckets h v =
    ground (arith, sum_to-slots all n newest current log buckets h v, (v n).agrees all current h)

-- The window's sums are the amounts of the log in the window.
pub sums-observe_all :
    (log : List Entry) (newest current : ℕ)
    → Ordered newest log
    → newest ≤ current
    → sums (observe_all no_buckets log) current
      ≡ (logged true log current, logged false log current)
unfolding sums
sums-observe_all log newest current o h =
    let v = observe_all-Tracks newest log o in
    let sum = λ (all : Bool).
      sum_to-slots all 10 newest current log (observe_all no_buckets log) h v
      ∙ slots-logged all log current in
    ap₂ (λ (a b : ℕ). (a, b)) (sum true) (sum false)

-- Epochs do not go back while the time does not.
pub epoch_of_mono :
    (bucket_nanos earlier later : ℕ)
    → earlier ≤ later
    → epoch_of bucket_nanos earlier ≤ epoch_of bucket_nanos later
unfolding epoch_of
epoch_of_mono bucket_nanos earlier later h = grind arith

pub Ordered-later :
    (newest later : ℕ) (log : List Entry) → newest ≤ later → Ordered newest log → Ordered later log
Ordered-later newest later [] h v = tt
Ordered-later newest later (e ∷ log) h (k, v) = (omega arith, v)
