-- ===== src/StaleCache/Freshness.antt =====
-- stalecache.go: which values the wrapper returns.
use r8e.Prelude.{
  ℕ, ◌≡◌, ◌≢◌, refl, sym, ◌∙◌, subst, Option, none, some, List, [], ◌∷◌, ◌⊎◌, inl, inr, ◌==◌,
  Bool-cases, Option-cases, arith, if◌then◌else◌,
}
use r8e.Errors.{Error}
use r8e.Retry.{Result, ok, err}
use r8e.StaleCache.{Cache, CacheLaws, do_cached, on_stale_served, on_cache_refreshed, no_callback}

-- The result of the latest call for the key that succeeded; the latest call stands first.
abbrev pub last_ok : {V : Type 0} → List (ℕ × Result V) → ℕ → Option V
last_ok [] k = none
last_ok ((j, err e) ∷ calls) k = last_ok calls k
last_ok ((j, ok v) ∷ calls) k = let before = last_ok calls k in if j == k then some v else before

module _ {V : Type 0} (cache : Cache V) (ttl : ℕ) where
  open cache use {Store, empty}

  -- The store after the calls; between two calls `age` may expire or evict entries.
  pub after : (Store → Store) → List (ℕ × Result V) → Store
  after age [] = empty
  after age ((k, r) ∷ calls) = (do_cached cache ttl (age (after age calls)) k r).0

module _ {V : Type 0} (cache : Cache V) (laws : CacheLaws cache) (ttl : ℕ) where
  open cache use {Store, empty, get, set}

  -- The cache holds the latest value of the key or none.
  abbrev Holds : Store → List (ℕ × Result V) → Type 0
  Holds s calls = (k : ℕ) → (get s k ≡ last_ok calls k) ⊎ (get s k ≡ none)

  aged :
      (age : Store → Store) (s : Store) (calls : List (ℕ × Result V))
      → ((t : Store) (k : ℕ) → (get (age t) k ≡ get t k) ⊎ (get (age t) k ≡ none))
      → Holds s calls
      → Holds (age s) calls
  aged age s calls old h k = elim (old s k) [
    | inl e ↦ elim (h k) [ inl f ↦ inl (e ∙ f) | inr f ↦ inr (e ∙ f) ]
    | inr e ↦ inr e
  ]

  set-Holds :
      (s : Store) (calls : List (ℕ × Result V)) (j : ℕ) (v : V)
      → Holds s calls
      → Holds (set s j v ttl) ((j, ok v) ∷ calls)
  set-Holds s calls j v h k = elim (Bool-cases (j == k)) [
    | inl t ↦
        let e : j ≡ k = ground (arith, t) in
        rw t (
          subst (λ (i : ℕ). (get (set s j v ttl) i ≡ some v) ⊎ (get (set s j v ttl) i ≡ none)) e
            (laws.get_set s j v ttl))
    | inr f ↦
        let n : j ≢ k = ground (arith, f) in
        rw f (elim (laws.get_set_other s j k v ttl n) [
          | inl e ↦ elim (h k) [ inl g ↦ inl (e ∙ g) | inr g ↦ inr (e ∙ g) ]
          | inr e ↦ inr e
        ])
  ]

  do_cached-err : (s : Store) (k : ℕ) (e : Error) → (do_cached cache ttl s k (err e)).0 ≡ s
  unfolding do_cached
  do_cached-err s k e = elim (Option-cases (get s k)) [
    | inl n ↦ rw (do_cached, n) refl
    | inr (v, f) ↦ rw (do_cached, f) refl
  ]

  after-Holds :
      (age : Store → Store) (calls : List (ℕ × Result V))
      → ((t : Store) (k : ℕ) → (get (age t) k ≡ get t k) ⊎ (get (age t) k ≡ none))
      → Holds (after cache ttl age calls) calls
  unfolding after do_cached
  after-Holds age [] old = λ k. inr (laws.get_empty k)
  after-Holds age ((j, ok v) ∷ calls) old =
      set-Holds (age (after cache ttl age calls)) calls j v
        (aged age (after cache ttl age calls) calls old (after-Holds age calls old))
  after-Holds age ((j, err e) ∷ calls) old =
      subst (λ (s : Store). Holds s calls)
        (sym (do_cached-err (age (after cache ttl age calls)) j e))
        (aged age (after cache ttl age calls) calls old (after-Holds age calls old))

  -- A call that succeeds returns its own value. One that fails returns the latest value of its own
  -- key, where the cache still has it, and then says that it is stale; where the cache has none, it returns
  -- its own error.
  pub do_cached_cases :
      (age : Store → Store) (calls : List (ℕ × Result V)) (key : ℕ) (r : Result V)
      → ((t : Store) (k : ℕ) → (get (age t) k ≡ get t k) ⊎ (get (age t) k ≡ none))
      → let s = age (after cache ttl age calls) in
        let out = do_cached cache ttl s key r in
        ((v : V) × (r ≡ ok v) × (out.1 ≡ ok v) × (out.2 ≡ on_cache_refreshed))
        ⊎ ((v : V) × (e : Error) × (r ≡ err e)
            × (get s key ≡ some v)
            × (last_ok calls key ≡ some v)
            × (out.1 ≡ ok v)
            × (out.2 ≡ on_stale_served))
        ⊎ ((e : Error) × (r ≡ err e) × (get s key ≡ none) × (out.1 ≡ err e) × (out.2 ≡ no_callback))
  unfolding do_cached
  do_cached_cases age calls key (ok v) old = inl (v, refl, refl, refl)
  do_cached_cases age calls key (err e) old =
      let s = age (after cache ttl age calls) in
      elim (Option-cases (get s key)) [
        | inl n ↦ inr (inr (e, refl, n, rw (do_cached, n) refl, rw (do_cached, n) refl))
        | inr (v, f) ↦
            elim (aged age (after cache ttl age calls) calls old (after-Holds age calls old) key) [
              | inl g ↦
                  inr
                    (inl (v, e, refl, f, sym g ∙ f, rw (do_cached, f) refl, rw (do_cached, f) refl))
              | inr g ↦ absurd (cc (sym g ∙ f))
            ]
      ]
