-- ===== src/Coalesce/SingleFlight.antt =====
-- coalesce.go: over every interleaving of callers and executions, one execution for each key.
use r8e.Prelude.{
  ℕ, ◌+◌, ◌≡◌, refl, sym, ap, ◌∙◌, subst, Bool, true, false, none, some, List, [], ◌∷◌, ◌++◌, ◌==◌,
  arith, ◌⊎◌, inl, inr, Bool-cases, Option-cases, if◌then◌else◌,
}
use r8e.Retry.{Result}
use r8e.Coalesce.{Coalescer, look_up, delete, new_coalescer, enter, remove, close_done}

-- No key twice.
abbrev pub DistinctKeys : List (ℕ × ℕ) → Type 0
DistinctKeys [] = Unit
DistinctKeys ((k, c) ∷ rest) = (look_up rest k ≡ none) × DistinctKeys rest

look_up-other :
    (xs ys : List (ℕ × ℕ)) (j k c : ℕ)
    → look_up (xs ++ ((k, c) ∷ ys)) j ≡ none
    → ((k == j) ≡ false) × (look_up (xs ++ ys) j ≡ none)
look_up-other [] ys j k c h = ground (arith, h)
look_up-other ((i, a) ∷ xs) ys j k c h = elim (Bool-cases (i == j)) [
  | inl t ↦
      absurd
        (cc (sym (ap (λ (b : Bool). if b then some a else look_up (xs ++ ((k, c) ∷ ys)) j) t) ∙ h))
  | inr f ↦
      let tail =
        sym (ap (λ (b : Bool). if b then some a else look_up (xs ++ ((k, c) ∷ ys)) j) f) ∙ h in
      let (other, absent) = look_up-other xs ys j k c tail in (other, rw f absent)
]

delete-absent : (l : List (ℕ × ℕ)) (k : ℕ) → look_up l k ≡ none → delete l k ≡ l
delete-absent [] k h = refl
delete-absent ((j, a) ∷ rest) k h = ground (arith, h, delete-absent rest k)

delete-at :
    (xs ys : List (ℕ × ℕ)) (k c : ℕ)
    → DistinctKeys (xs ++ ((k, c) ∷ ys))
    → (delete (xs ++ ((k, c) ∷ ys)) k ≡ xs ++ ys) × DistinctKeys (xs ++ ys)
delete-at [] ys k c (h, d) = (ground (arith, delete-absent ys k h), d)
delete-at ((j, a) ∷ xs) ys k c (h, d) =
    let (other, absent) = look_up-other xs ys j k c h in
    let (same, rest) = delete-at xs ys k c d in
    let differ : (j == k) ≡ false = ground (arith, other) in
    (rw differ (ap (◌∷◌ (j, a)) same), (absent, rest))

module _ (T : Type 0) where
  -- The coalescer, the executions that run, with their keys and calls, and those that have removed their key
  -- and not yet closed their channel.
  pub record System : Type 0 where
    pub coalescer : Coalescer T
    pub running : List (ℕ × ℕ)
    pub closing : List (ℕ × ℕ)

  -- A leader starts an execution; an execution, any of those that run, ends and removes its key; one that has
  -- done so closes its channel, with its result.
  pub data Step : System → System → Type 0 where
    enters :
        (s : System) (key : ℕ)
        → Step s (record {
          coalescer = (enter s.coalescer key).0;
          running =
              let (c, call, leader) = enter s.coalescer key in
              if leader then (key, call) ∷ s.running else s.running;
          closing = s.closing;
        })
    removes :
        (c : Coalescer T) (xs ys closing : List (ℕ × ℕ)) (key call : ℕ)
        → Step
            (record { coalescer = c; running = xs ++ ((key, call) ∷ ys); closing = closing })
            (record {
              coalescer = remove c key;
              running = xs ++ ys;
              closing = (key, call) ∷ closing;
            })
    closes :
        (c : Coalescer T) (running xs ys : List (ℕ × ℕ)) (key call : ℕ) (r : Result T)
        → Step
            (record { coalescer = c; running = running; closing = xs ++ ((key, call) ∷ ys) })
            (record { coalescer = close_done c call r; running = running; closing = xs ++ ys })

  pub data Reach : System → Type 0 where
    start : Reach (record { coalescer = new_coalescer; running = []; closing = [] })
    later : {s t : System} → Reach s → Step s t → Reach t

  pub record SingleFlight (s : System) : Type 0 where
    pub tracked : s.coalescer.in_flight ≡ s.running
    pub distinct : DistinctKeys s.running

  pub enter_cases :
      (c : Coalescer T) (key : ℕ)
      → ((call : ℕ) × (look_up c.in_flight key ≡ some call) × (enter c key ≡ (c, call, false)))
        ⊎ ((look_up c.in_flight key ≡ none)
            × (enter c key ≡ (
              record c {
                in_flight = (key, c.allocated) ∷ c.in_flight;
                allocated = c.allocated + 1;
              },
              c.allocated,
              true,
            )))
  unfolding enter
  enter_cases c key = elim (Option-cases (look_up c.in_flight key)) [
    | inl e ↦ inr (e, rw (enter, e) refl)
    | inr (call, e) ↦ inl (call, e, rw (enter, e) refl)
  ]

  Step-SingleFlight : {s t : System} → Step s t → SingleFlight s → SingleFlight t
  unfolding remove close_done
  Step-SingleFlight (enters s key) v = elim (enter_cases s.coalescer key) [
    | inl (call, e, q) ↦ rw q (record { tracked = v.tracked; distinct = v.distinct })
    | inr (e, q) ↦ rw q (record {
      tracked = ap (◌∷◌ (key, s.coalescer.allocated)) v.tracked;
      distinct = (subst (λ (l : List (ℕ × ℕ)). look_up l key ≡ none) v.tracked e, v.distinct);
    })
  ]
  Step-SingleFlight (closes c running xs ys key call r) v = record {
    tracked = v.tracked;
    distinct = v.distinct;
  }
  Step-SingleFlight (removes c xs ys closing key call) v =
      let (gone, distinct) = delete-at xs ys key call v.distinct in
      record {
        tracked = ap (λ (l : List (ℕ × ℕ)). delete l key) v.tracked ∙ gone;
        distinct = distinct;
      }

  -- In every interleaving the coalescer tracks just the executions that run, and no key has two.
  pub Reach-SingleFlight : {s : System} → Reach s → SingleFlight s
  unfolding new_coalescer
  Reach-SingleFlight start = record { tracked = refl; distinct = tt }
  Reach-SingleFlight (later r st) = Step-SingleFlight st (Reach-SingleFlight r)

  -- A caller whose key an execution runs for awaits the call of that execution and changes nothing;
  -- any other caller leads a new call of its own, which it awaits.
  pub enter_of_Reach :
      {s : System}
      → Reach s
      → (key : ℕ)
      → ((call : ℕ) × (look_up s.running key ≡ some call)
          × (enter s.coalescer key ≡ (s.coalescer, call, false)))
        ⊎ ((look_up s.running key ≡ none)
            × ((enter s.coalescer key).1 ≡ s.coalescer.allocated)
            × ((enter s.coalescer key).2 ≡ true))
  enter_of_Reach {s} r key =
      let tracked = (Reach-SingleFlight r).tracked in
      elim (enter_cases s.coalescer key) [
        | inl (call, e, q) ↦
            inl (call, subst (λ (l : List (ℕ × ℕ)). look_up l key ≡ some call) tracked e, q)
        | inr (e, q) ↦ inr (
          subst (λ (l : List (ℕ × ℕ)). look_up l key ≡ none) tracked e,
          ap (λ (x : Coalescer T × ℕ × Bool). x.1) q,
          ap (λ (x : Coalescer T × ℕ × Bool). x.2) q,
        )
      ]
