-- ===== src/Coalesce/Results.antt =====
-- coalesce.go: the result of a shared call is the same for all that await it.
use r8e.Prelude.{
  ℕ, ◌+◌, ◌≤◌, ◌≡◌, refl, sym, ap, ◌∙◌, Bool, true, false, Option, none, some, List, [], ◌∷◌, ◌++◌,
  ◌==◌, arith, inl, inr, Bool-cases, Option-cases, if◌then◌else◌,
}
use r8e.Errors.{Error}
use r8e.Retry.{Result, err}
use r8e.Coalesce.{look_up, new_coalescer, remove, close_done, await, await_either}
use r8e.Coalesce.SingleFlight.{
  System, Step, enters, removes, closes, Reach, start, later, enter_cases,
}

-- How often a call stands in a list of executions.
abbrev uses : ℕ → List (ℕ × ℕ) → ℕ
uses a [] = 0
uses a ((k, c) ∷ rest) = let n = uses a rest in if c == a then n + 1 else n

uses-at :
    (a : ℕ) (xs ys : List (ℕ × ℕ)) (k c : ℕ)
    → uses a (xs ++ ((k, c) ∷ ys)) ≡ (if c == a then uses a (xs ++ ys) + 1 else uses a (xs ++ ys))
uses-at a [] ys k c = refl
uses-at a ((j, d) ∷ xs) ys k c = ground (arith, uses-at a xs ys k c)

module _ {T : Type 0} where
  -- How often a call is done.
  abbrev ends : ℕ → List (ℕ × Result T) → ℕ
  ends a [] = 0
  ends a ((c, r) ∷ rest) = let n = ends a rest in if c == a then n + 1 else n

  ends-none : (a : ℕ) (done : List (ℕ × Result T)) → ends a done ≡ 0 → look_up done a ≡ none
  ends-none a [] h = refl
  ends-none a ((c, r) ∷ rest) h = elim (Bool-cases (c == a)) [
    | inl t ↦ absurd (ground (arith, h, t))
    | inr f ↦ rw f (ends-none a rest (ground (arith, h, f)))
  ]

  -- The places in which a call stands.
  abbrev standing : ℕ → System T → ℕ
  standing a s = uses a s.running + uses a s.closing + ends a s.coalescer.done

  -- A call that is allocated runs, closes or is done, at most one of these and once.
  abbrev Named : System T → Type 0
  Named s = (a : ℕ) → (standing a s ≤ 1) × (s.coalescer.allocated ≤ a → standing a s ≡ 0)

  Step-Named : {s t : System T} → Step T s t → Named s → Named t
  unfolding remove close_done
  Step-Named (enters s key) v a = elim (enter_cases T s.coalescer key) [
    | inl (call, e, q) ↦ rw q (v a)
    | inr (e, q) ↦
        let (one, zero) = v a in rw q (ground (arith, one, zero), λ h. ground (arith, zero, h))
  ]
  Step-Named (removes c xs ys closing key call) v a =
      let (one, zero) = v a in
      let at = uses-at a xs ys key call in
      (ground (arith, one, at), λ h. ground (arith, zero h, at))
  Step-Named (closes c running xs ys key call r) v a =
      let (one, zero) = v a in
      let at = uses-at a xs ys key call in
      (ground (arith, one, at), λ h. ground (arith, zero h, at))

  Reach-Named : {s : System T} → Reach T s → Named s
  unfolding new_coalescer
  Reach-Named start = λ a. (omega arith, λ h. refl)
  Reach-Named (later r st) = Step-Named st (Reach-Named r)

  look_up-kept :
      (done : List (ℕ × Result T)) (call d : ℕ) (r w : Result T)
      → look_up done call ≡ none
      → look_up done d ≡ some w
      → look_up ((call, r) ∷ done) d ≡ some w
  look_up-kept done call d r w f h = elim (Bool-cases (call == d)) [
    | inl t ↦ let e : call ≡ d = ground (arith, t) in absurd (cc (sym f ∙ ap (look_up done) e ∙ h))
    | inr n ↦ rw n h
  ]

  closing_is_open :
      (done : List (ℕ × Result T)) (xs ys : List (ℕ × ℕ)) (key call m : ℕ)
      → m + uses call (xs ++ ((key, call) ∷ ys)) + ends call done ≤ 1
      → look_up done call ≡ none
  closing_is_open done xs ys key call m h =
      ends-none call done (ground (arith, h, uses-at call xs ys key call))

  Step-kept :
      {s t : System T} (call : ℕ) (w : Result T)
      → Step T s t
      → Named s
      → look_up s.coalescer.done call ≡ some w
      → look_up t.coalescer.done call ≡ some w
  unfolding remove close_done
  Step-kept d w (enters s key) v h = elim (enter_cases T s.coalescer key) [
    | inl (call, e, q) ↦ rw q h
    | inr (e, q) ↦ rw q h
  ]
  Step-kept d w (removes c xs ys closing key call) v h = h
  Step-kept d w (closes c running xs ys key call r) v h =
      look_up-kept c.done call d r w
        (closing_is_open c.done xs ys key call (uses call running) (v call).0) h

  -- Any number of steps.
  pub data Steps : System T → System T → Type 0 where
    none_yet : (s : System T) → Steps s s
    next : {s t u : System T} → Steps s t → Step T t u → Steps s u

  Steps-Reach : {s t : System T} → Reach T s → Steps s t → Reach T t
  Steps-Reach r (none_yet s) = r
  Steps-Reach r (next steps st) = later (Steps-Reach r steps) st

  Steps-kept :
      {s t : System T} (call : ℕ) (w : Result T)
      → Reach T s
      → Steps s t
      → look_up s.coalescer.done call ≡ some w
      → look_up t.coalescer.done call ≡ some w
  Steps-kept call w r (none_yet s) h = h
  Steps-kept call w r (next steps st) h =
      Step-kept call w st (Reach-Named (Steps-Reach r steps)) (Steps-kept call w r steps h)

  -- What a caller gets that awaits a call: nothing yet, its own context's error, or the shared result.
  pub data Shared (s t u : System T) (call : ℕ) (cancelled : Option Error)
      : Option (Result T) → Type 0 where
    blocks :
        cancelled ≡ none → look_up t.coalescer.done call ≡ none → Shared s t u call cancelled none
    gives_up :
        (e : Error)
        → cancelled ≡ some e
        → look_up s.coalescer.done call ≡ none
        → Shared s t u call cancelled (some (err e))
    shares :
        (r : Result T)
        → look_up t.coalescer.done call ≡ some r
        → look_up u.coalescer.done call ≡ some r
        → Shared s t u call cancelled (some r)

  either-Shared :
      {s t u : System T} (call : ℕ) (cancelled : Option Error) (over_end : Bool)
      (o : Option (Result T))
      → look_up s.coalescer.done call ≡ none
      → look_up t.coalescer.done call ≡ o
      → ((r : Result T) → o ≡ some r → look_up u.coalescer.done call ≡ some r)
      → Shared s t u call cancelled (await_either o cancelled over_end)
  either-Shared call none b none f e k = blocks refl e
  either-Shared call (some x) b none f e k = gives_up x refl f
  either-Shared call none b (some r) f e k = shares r e (k r refl)
  either-Shared call (some x) true (some r) f e k = shares r e (k r refl)
  either-Shared call (some x) false (some r) f e k = gives_up x refl f

  -- A caller that looks at a call first, and later, after any steps of the others, selects between its end and
  -- that of its own context, waits while neither has come; it gets its context's error only if the context
  -- has ended and the call was not done when it looked first; and otherwise it gets the one result of the
  -- call, which every later look-up finds too, whatever steps follow.
  pub await-Shared :
      {s t u : System T} (call : ℕ) (cancelled : Option Error) (over_end : Bool)
      → Reach T s
      → Steps s t
      → Steps t u
      → Shared s t u call cancelled (await s.coalescer t.coalescer call cancelled over_end)
  unfolding await
  await-Shared {s} {t} {u} call cancelled over_end reach first second =
      let kept : (r : Result T)
          → look_up t.coalescer.done call ≡ some r
          → look_up u.coalescer.done call ≡ some r =
        λ r h. Steps-kept call r (Steps-Reach reach first) second h in
      elim (Option-cases (look_up s.coalescer.done call)) [
        | inl e ↦ rw (await, e) (either-Shared call cancelled over_end _ e refl kept)
        | inr (r, e) ↦
            let later_on = Steps-kept call r reach first e in
            rw (await, e) (shares r later_on (kept r later_on))
      ]
