-- ===== src/Breaker/Verdicts.antt =====
-- Lists of verdicts, the newest first, and the lists that pad them.
use mathlib.Core.List.{reverse-cons}
use r8e.Prelude.{
  ℕ, zero, suc, ◌+◌, ◌≤◌, ◌<◌, ◌≡◌, refl, ap, Bool, false, List, [], ◌∷◌, ◌++◌, reverse, arith,
  length, take, replicate, get_or, set, if◌then◌else◌, length-append,
}

-- How many verdicts are `true`, that is slow.
unfoldable pub count_slow : List Bool → ℕ
count_slow [] = 0
count_slow (b ∷ bs) = (if b then 1 else 0) + count_slow bs

pub count_slow-append : (xs ys : List Bool) → count_slow (xs ++ ys) ≡ count_slow xs + count_slow ys
unfolding count_slow
count_slow-append [] ys = omega arith
count_slow-append (x ∷ xs) ys = omega (arith, count_slow-append xs ys)

pub count_slow-reverse : (xs : List Bool) → count_slow (reverse xs) ≡ count_slow xs
unfolding count_slow
count_slow-reverse [] = refl
count_slow-reverse (x ∷ xs) = omega (
  arith,
  ap count_slow (reverse-cons x xs),
  count_slow-append (reverse xs) (x ∷ []),
  count_slow-reverse xs,
)

pub count_slow-replicate : (n : ℕ) → count_slow (replicate n false) ≡ 0
unfolding count_slow
count_slow-replicate zero = refl
count_slow-replicate (suc n) = omega (arith, count_slow-replicate n)

-- The last `n` verdicts, padded with the `false` of slots that were never written.
abbrev pub padded : ℕ → List Bool → List Bool
padded n hs = take n (hs ++ replicate n false)

-- A prefix that is known together with its last element.
pub take_snoc :
    {A : Type 0} (n : ℕ) (xs ys : List A) (a : A)
    → take (suc n) xs ≡ ys ++ a ∷ []
    → length ys ≡ n
    → take n xs ≡ ys
take_snoc zero xs [] a e h = refl
take_snoc zero xs (y ∷ ys) a e h = absurd (omega arith)
take_snoc (suc n) xs [] a e h = absurd (omega arith)
take_snoc (suc n) [] (y ∷ ys) a e h = absurd (cc)
take_snoc (suc n) (x ∷ xs) (y ∷ ys) a e h =
    let p : x ≡ y = cc in
    let q : take (suc n) xs ≡ ys ++ a ∷ [] = cc in
    rw p (ap (◌∷◌ y) (take_snoc n xs ys a q (omega arith)))

pub padded_last :
    (m k : ℕ) (hs : List Bool)
    → length hs ≤ m
    → m < k
    → take (suc m) (hs ++ replicate k false) ≡ take m (hs ++ replicate k false) ++ false ∷ []
padded_last m zero hs h h' = elim h' [ ]
padded_last zero (suc k) [] h h' = refl
padded_last (suc m) (suc k) [] h h' =
    ap (◌∷◌ false) (padded_last m k [] (omega arith) (omega arith))
padded_last zero (suc k) (b ∷ hs) h h' = absurd (omega arith)
padded_last (suc m) (suc k) (b ∷ hs) h h' =
    ap (◌∷◌ b) (padded_last m (suc k) hs (omega arith) (omega arith))

pub snoc_injective :
    {A : Type 0} (xs ys : List A) (a b : A) → xs ++ a ∷ [] ≡ ys ++ b ∷ [] → (xs ≡ ys) × (a ≡ b)
snoc_injective [] [] a b e = (refl, cc)
snoc_injective [] (y ∷ ys) a b e = absurd (ground (arith, ap length e, length-append ys (b ∷ [])))
snoc_injective (x ∷ xs) [] a b e = absurd (ground (arith, ap length e, length-append xs (a ∷ [])))
snoc_injective (x ∷ xs) (y ∷ ys) a b e =
    let p : x ≡ y = cc in
    let q : xs ++ a ∷ [] ≡ ys ++ b ∷ [] = cc in
    let r : (xs ≡ ys) × (a ≡ b) = snoc_injective xs ys a b q in (rw (p, r.0) refl, r.1)

pub count_slow-take_nil : (n : ℕ) → count_slow (take n []) ≡ 0
unfolding count_slow
count_slow-take_nil zero = refl
count_slow-take_nil (suc n) = refl

pub count_slow-padded :
    (n k : ℕ) (hs : List Bool)
    → count_slow (take n (hs ++ replicate k false)) ≡ count_slow (take n hs)
unfolding count_slow
count_slow-padded zero k hs = refl
count_slow-padded (suc n) zero [] = refl
count_slow-padded (suc n) (suc k) [] =
    omega (arith, count_slow-padded n k [], count_slow-take_nil n)
count_slow-padded (suc n) k (b ∷ hs) = omega (arith, count_slow-padded n k hs)

pub get_or-middle {ℓ} :
    {A : Type ℓ} (xs ys : List A) (a d : A) → get_or (xs ++ a ∷ ys) (length xs) d ≡ a
get_or-middle [] ys a d = refl
get_or-middle (x ∷ xs) ys a d = get_or-middle xs ys a d

pub set-middle {ℓ} :
    {A : Type ℓ} (xs ys : List A) (a b : A) → set (xs ++ a ∷ ys) (length xs) b ≡ xs ++ b ∷ ys
set-middle [] ys a b = refl
set-middle (x ∷ xs) ys a b = ap (◌∷◌ x) (set-middle xs ys a b)
