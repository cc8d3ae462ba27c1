-- ===== src/Chain/Order.antt =====
-- order.go: what the sort by priority returns.
use mathlib.Core.List.{head-eq_of_cons-eq}
use r8e.Prelude.{
  ℕ, ◌≤◌, ◌<◌, ◌≡◌, refl, sym, ap, ap₂, ◌∙◌, List, [], ◌∷◌, ◌==◌, leb, All, arith, subst, ◌↔◌,
  if◌then◌else◌, Bool-cases, inl, inr,
}
use r8e.Chain.{PatternEntry, insert, sort_stable}

abbrev pub Entries : Type 0 → Type 0 → Type 0
Entries H Name = List (PatternEntry H Name)

module _ {H : Type 0} {Name : Type 0} where
  -- The entries of one priority, in their order.
  abbrev pub bucket : ℕ → Entries H Name → Entries H Name
  bucket p [] = []
  bucket p (e ∷ es) = let rest = bucket p es in if e.priority == p then e ∷ rest else rest

  abbrev pub Sorted : Entries H Name → Type 0
  Sorted [] = Unit
  Sorted (e ∷ es) = All (λ (x : PatternEntry H Name). e.priority ≤ x.priority) es × Sorted es

  -- Sorted by priority, the entries of each priority as they were and in their old order.
  pub record IsStableSort (es : Entries H Name) (zs : Entries H Name) : Type 0 where
    pub sorted : Sorted zs
    pub stable : (p : ℕ) → bucket p zs ≡ bucket p es

  bucket-insert :
      (p : ℕ) (e : PatternEntry H Name) (es : Entries H Name)
      → bucket p (insert e es) ≡ bucket p (e ∷ es)
  unfolding insert
  bucket-insert p e [] = refl
  bucket-insert p e (x ∷ xs) = ground (arith, bucket-insert p e xs)

  All-insert :
      (p : ℕ) (e : PatternEntry H Name) (es : Entries H Name)
      → p ≤ e.priority
      → All (λ (x : PatternEntry H Name). p ≤ x.priority) es
      → All (λ (x : PatternEntry H Name). p ≤ x.priority) (insert e es)
  unfolding insert
  All-insert p e [] h v = (h, tt)
  All-insert p e (x ∷ xs) h (v, vs) = ground (arith, All-insert p e xs h vs)

  All-le :
      (p q : ℕ) (es : Entries H Name)
      → p ≤ q
      → All (λ (x : PatternEntry H Name). q ≤ x.priority) es
      → All (λ (x : PatternEntry H Name). p ≤ x.priority) es
  All-le p q [] h v = tt
  All-le p q (x ∷ xs) h (v, vs) = (omega arith, All-le p q xs h vs)

  insert-Sorted : (e : PatternEntry H Name) (es : Entries H Name) → Sorted es → Sorted (insert e es)
  unfolding insert
  insert-Sorted e [] v = (tt, tt)
  insert-Sorted e (x ∷ xs) (v, vs) = elim (Bool-cases (leb e.priority x.priority)) [
    | inl t ↦
        let h : e.priority ≤ x.priority = ground (arith, t) in
        rw t ((h, All-le _ _ xs h v), (v, vs))
    | inr f ↦
        let h : x.priority ≤ e.priority = ground (arith, f) in
        rw f (All-insert x.priority e xs h v, insert-Sorted e xs vs)
  ]

  sort_stable-IsStableSort : (es : Entries H Name) → IsStableSort es (sort_stable es)
  unfolding sort_stable
  sort_stable-IsStableSort [] = record { sorted = tt; stable = λ p. refl }
  sort_stable-IsStableSort (e ∷ es) =
      let rest = sort_stable-IsStableSort es in
      record {
        sorted = insert-Sorted e (sort_stable es) rest.sorted;
        stable = λ p.
            bucket-insert p e (sort_stable es)
            ∙ ap (λ (l : Entries H Name). if e.priority == p then e ∷ l else l) (rest.stable p);
      }

  bucket-below :
      (p q : ℕ) (es : Entries H Name)
      → p < q
      → All (λ (x : PatternEntry H Name). q ≤ x.priority) es
      → bucket p es ≡ []
  bucket-below p q [] h v = refl
  bucket-below p q (x ∷ xs) h (v, vs) = ground (arith, bucket-below p q xs h vs)

  bucket-own :
      (x : PatternEntry H Name) (xs : Entries H Name)
      → bucket x.priority (x ∷ xs) ≡ x ∷ bucket x.priority xs
  bucket-own x xs = ground arith

  head-le :
      (x y : PatternEntry H Name) (xs ys : Entries H Name)
      → Sorted (y ∷ ys)
      → ((p : ℕ) → bucket p (x ∷ xs) ≡ bucket p (y ∷ ys))
      → y.priority ≤ x.priority
  head-le x y xs ys (v, vs) same = elim (Bool-cases (leb y.priority x.priority)) [
    | inl t ↦ ground (arith, t)
    | inr f ↦
        let h : x.priority < y.priority = ground (arith, f) in
        let none_left =
          sym (bucket-own x xs)
          ∙ same x.priority
          ∙ bucket-below x.priority y.priority (y ∷ ys) h (omega arith, v) in
        absurd (cc none_left)
  ]

  tails :
      (x y : PatternEntry H Name) (xs ys : Entries H Name)
      → x.priority ≡ y.priority
      → ((p : ℕ) → bucket p (x ∷ xs) ≡ bucket p (y ∷ ys))
      → (p : ℕ) → bucket p xs ≡ bucket p ys
  tails x y xs ys e same p = ground (arith, same p)

  Sorted-unique :
      (xs ys : Entries H Name)
      → Sorted xs
      → Sorted ys
      → ((p : ℕ) → bucket p xs ≡ bucket p ys)
      → xs ≡ ys
  Sorted-unique [] [] v w same = refl
  Sorted-unique [] (y ∷ ys) v w same = absurd (cc (same y.priority ∙ bucket-own y ys))
  Sorted-unique (x ∷ xs) [] v w same = absurd (cc (sym (bucket-own x xs) ∙ same x.priority))
  Sorted-unique (x ∷ xs) (y ∷ ys) v w same =
      let e : x.priority ≡ y.priority =
        omega (arith, head-le x y xs ys w same, head-le y x ys xs v (λ p. sym (same p))) in
      let rest = Sorted-unique xs ys v.1 w.1 (tails x y xs ys e same) in
      let heads =
        sym (bucket-own x xs)
        ∙ same x.priority
        ∙ ap (λ (p : ℕ). bucket p (y ∷ ys)) e
        ∙ bucket-own y ys in
      ap₂ ◌∷◌ (head-eq_of_cons-eq heads) rest

  -- The sort of SortPatterns returns the one list that ascends in priority and holds the entries of
  -- each priority in the order in which they came, none lost and none added.
  pub sort_stable_iff : (es zs : Entries H Name) → IsStableSort es zs ↔ (zs ≡ sort_stable es)
  sort_stable_iff es zs =
      let own = sort_stable-IsStableSort es in
      (
        (λ z.
            Sorted-unique zs (sort_stable es) z.sorted own.sorted
              (λ p. z.stable p ∙ sym (own.stable p))),
        (λ e. subst (IsStableSort es) (sym e) own),
      )
