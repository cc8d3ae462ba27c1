-- ===== src/Codel/Latch.antt =====
-- codel.go: when the overload latch is set.
use r8e.Prelude.{
  ℕ, ◌-◌, ◌≤◌, ◌<◌, ◌≡◌, refl, true, false, List, [], ◌∷◌, some, ◌⊎◌, inl, inr, ◌↔◌, arith, All,
  Bool-cases, leb, leb→le,
}
use r8e.Codel.{Codel, observe}

-- A reading of the queue: its standing delay, and when it was taken.
unfoldable pub observe_all : Codel → List (ℕ × ℕ) → Codel
observe_all c [] = c
observe_all c ((standing, now) ∷ rs) = observe_all (observe c standing now) rs

observe_all-target :
    (c : Codel) (rs : List (ℕ × ℕ))
    → ((observe_all c rs).target ≡ c.target) × ((observe_all c rs).interval ≡ c.interval)
unfolding observe_all observe
observe_all-target c [] = (refl, refl)
observe_all-target c ((standing, now) ∷ rs) =
    ground (arith, observe_all-target (observe c standing now) rs)

abbrev pub Above : ℕ → ℕ × ℕ → Type 0
Above target r = target < r.0

-- Some reading was taken an interval or more after `since`.
abbrev pub Lasts : ℕ → ℕ → List (ℕ × ℕ) → Type 0
Lasts since interval [] = ⊥
Lasts since interval ((standing, now) ∷ rs) = (interval ≤ now - since) ⊎ Lasts since interval rs

stays_overloaded :
    (c : Codel) (since : ℕ) (rs : List (ℕ × ℕ))
    → c.above_since ≡ some since
    → c.overloaded ≡ true
    → All (Above c.target) rs
    → (observe_all c rs).overloaded ≡ true
unfolding observe_all observe
stays_overloaded c since [] s o a = o
stays_overloaded c since ((standing, now) ∷ rs) s o a =
    ground (arith, stays_overloaded (observe c standing now) since rs)

observe_early :
    (c : Codel) (since standing now : ℕ)
    → c.above_since ≡ some since
    → c.target < standing
    → leb c.interval (now - since) ≡ false
    → observe c standing now ≡ c
unfolding observe
observe_early c since standing now s a early = ground arith

latches :
    (c : Codel) (since : ℕ) (rs : List (ℕ × ℕ))
    → c.above_since ≡ some since
    → c.overloaded ≡ false
    → All (Above c.target) rs
    → (observe_all c rs).overloaded ≡ true ↔ Lasts since c.interval rs
unfolding observe_all observe
latches c since [] s o a = (λ h. cc, λ h. absurd h)
latches c since ((standing, now) ∷ rs) s o a = elim (Bool-cases (leb c.interval (now - since))) [
  | inl late ↦ (
    λ _. inl (leb→le _ _ late),
    λ _. ground (arith, stays_overloaded (observe c standing now) since rs),
  )
  | inr early ↦
      let same = observe_early c since standing now s a.0 early in
      let rest = latches c since rs s o a.1 in
      rw (same, observe_all)
        (λ h. inr (rest.0 h), elim [ inl late ↦ absurd (ground arith) | inr later ↦ rest.1 later ])
]

arm :
    (c : Codel) (healthy first : ℕ × ℕ)
    → healthy.0 ≤ c.target
    → c.target < first.0
    → observe (observe c healthy.0 healthy.1) first.0 first.1
      ≡ record c { above_since = some first.1; overloaded = false }
unfolding observe
arm c healthy first h a = ground arith

-- After a reading at or below the target, and as long as all readings are above it, the queue counts
-- as overloaded exactly when one of them came an interval or more after the first.
pub overloaded_iff_Lasts :
    (c : Codel) (healthy first : ℕ × ℕ) (rs : List (ℕ × ℕ))
    → healthy.0 ≤ c.target
    → All (Above c.target) (first ∷ rs)
    → (observe_all c (healthy ∷ first ∷ rs)).overloaded ≡ true ↔ Lasts first.1 c.interval rs
unfolding observe_all
overloaded_iff_Lasts c healthy first rs h a =
    rw (arm c healthy first h a.0, observe_all)
      (latches (record c { above_since = some first.1; overloaded = false }) first.1 rs refl refl
        a.1)
