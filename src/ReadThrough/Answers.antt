-- ===== src/ReadThrough/Answers.antt =====
-- readthrough.go: where the answers come from, over any history of calls and reloads.
use r8e.Prelude.{
  ℕ, ◌+◌, ◌-◌, ◌<◌, ◌≡◌, ◌≢◌, refl, sym, ap, ◌∙◌, subst, Bool, true, false, ◌&&◌, Option, none,
  some, List, [], ◌∷◌, ◌⊎◌, inl, inr, ltb, leb, ◌==◌, ltb→lt, Bool-cases, Option-cases, arith,
}
use r8e.Errors.{Error}
use r8e.Retry.{Result, ok, err}
use r8e.StaleCache.{Cache, CacheLaws}
use r8e.ReadThrough.{
  CacheEntry, EntryState, entry_miss, entry_fresh, entry_refresh_ahead, entry_stale,
  entry_negative_hit, Settings, entry_state, ReadThroughCache, new_read_through_cache, classify,
  store_value, store_negative, begin_refresh, end_refresh, answer_hit, execute, contains, serve,
  do_read_through, refresh,
}

-- What happens to the cache: calls, with the times of their look-up and of their end, and ends of reloads.
pub data Event (V : Type 0) : Type 0 where
  calls : Option ℕ → Bool → ℕ → ℕ → Result V → Event V
  reloads : ℕ → ℕ → Result V → Event V

-- The work for the key returned the result at the time, in a call or a reload; the latest event stands first.
pub data Returned {V : Type 0} (key : ℕ) (r : Result V) (at : ℕ) : List (Event V) → Type 0 where
  in_call :
      {forced : Bool} {now : ℕ} {es : List (Event V)}
      → Returned key r at (calls (some key) forced now at r ∷ es)
  in_reload : {es : List (Event V)} → Returned key r at (reloads key at r ∷ es)
  earlier : {e : Event V} {es : List (Event V)} → Returned key r at es → Returned key r at (e ∷ es)

module _ {V : Type 0} (cache : Cache (CacheEntry V)) (cfg : Settings) where
  open cache use {Store, empty, get, set}

  -- The cache after the events; between two of these `age` may expire or evict entries.
  unfoldable pub after : (Store → Store) → List (Event V) → ReadThroughCache cache cfg
  unfolding do_read_through refresh
  after age [] = new_read_through_cache cache cfg
  after age (calls key forced now later r ∷ es) =
      let rc = after age es in
      (do_read_through cache cfg (record rc { store = age rc.store }) key forced now later r).0
  after age (reloads key now r ∷ es) =
      let rc = after age es in (refresh cache cfg (record rc { store = age rc.store }) key now r).0

  -- Where an answer comes from: from the work itself, or from what it returned before, with its age.
  pub data Justified (es : List (Event V)) (key now : ℕ) (own : Result V)
      : Result V → Bool → Type 0 where
    from_work : Justified es key now own own true
    from_fresh :
        (v : V) (at : ℕ)
        → Returned key (ok v) at es
        → now - at < cfg.fresh_ttl
        → Justified es key now own (ok v) false
    from_stale :
        (v : V) (at : ℕ) (e : Error)
        → own ≡ err e
        → Returned key (ok v) at es
        → now - at < cfg.fresh_ttl + cfg.stale_ttl
        → Justified es key now own (ok v) true
    from_negative :
        (e : Error) (at : ℕ)
        → Returned key (err e) at es
        → now - at < cfg.neg_ttl
        → Justified es key now own (err e) false

  -- Every entry of the store was returned by the work for its key.
  abbrev pub Sourced : Store → List (Event V) → Type 0
  Sourced s es =
      (key : ℕ) (entry : CacheEntry V)
      → get s key ≡ some entry
      → Returned key entry.outcome entry.stored_at es

  -- The entry of a look-up, by its state.
  abbrev pub SourcedState : List (Event V) → ℕ → ℕ → EntryState V → Type 0
  SourcedState es key now entry_miss = Unit
  SourcedState es key now (entry_fresh v) =
      (at : ℕ) × Returned key (ok v) at es × (now - at < cfg.fresh_ttl)
  SourcedState es key now (entry_refresh_ahead v) =
      (at : ℕ) × Returned key (ok v) at es × (now - at < cfg.fresh_ttl)
  SourcedState es key now (entry_stale v) =
      (at : ℕ) × Returned key (ok v) at es × (now - at < cfg.fresh_ttl + cfg.stale_ttl)
  SourcedState es key now (entry_negative_hit e) =
      (at : ℕ) × Returned key (err e) at es × (now - at < cfg.neg_ttl)

  entry_state-Sourced :
      (es : List (Event V)) (key now at : ℕ) (r : Result V)
      → Returned key r at es
      → SourcedState es key now
          (entry_state cfg (record { outcome = r; stored_at = at }) (now - at))
  unfolding entry_state
  entry_state-Sourced es key now at (err e) h = elim (Bool-cases (ltb (now - at) cfg.neg_ttl)) [
    | inl t ↦ rw t (at, h, ltb→lt _ _ t)
    | inr f ↦ rw f tt
  ]
  entry_state-Sourced es key now at (ok v) h = elim (Bool-cases (ltb (now - at) cfg.fresh_ttl)) [
    | inl t ↦ elim (Bool-cases (ltb 0 cfg.refresh_ttl && leb cfg.refresh_ttl (now - at))) [
      | inl u ↦ rw (t, u) (at, h, ltb→lt _ _ t)
      | inr v ↦ rw (t, v) (at, h, ltb→lt _ _ t)
    ]
    | inr f ↦ elim (Bool-cases (ltb (now - at) (cfg.fresh_ttl + cfg.stale_ttl))) [
      | inl u ↦ rw (f, u) (at, h, ltb→lt _ _ u)
      | inr v ↦ rw (f, v) tt
    ]
  ]

  serve-Justified :
      (rc : ReadThroughCache cache cfg) (es : List (Event V)) (key now later : ℕ)
      (st : EntryState V) (own : Result V)
      → SourcedState es key now st
      → let answer = (serve cache cfg rc key st later own).1 in
        Justified es key now own answer.result answer.executed
  unfolding serve execute answer_hit
  serve-Justified rc es key now later entry_miss (ok v) h = from_work
  serve-Justified rc es key now later entry_miss (err e) h = from_work
  serve-Justified rc es key now later (entry_fresh v) own (at, h, k) = from_fresh v at h k
  serve-Justified rc es key now later (entry_refresh_ahead v) own (at, h, k) = from_fresh v at h k
  serve-Justified rc es key now later (entry_stale v) (ok w) h = from_work
  serve-Justified rc es key now later (entry_stale v) (err e) (at, h, k) =
      from_stale v at e refl h k
  serve-Justified rc es key now later (entry_negative_hit e) own (at, h, k) = from_negative e at h k

  state_of : ℕ → Option (CacheEntry V) → EntryState V
  state_of now found = elim found [
    | none ↦ entry_miss
    | some entry ↦ entry_state cfg entry (now - entry.stored_at)
  ]

  classify-Sourced :
      (s : Store) (es : List (Event V)) (key now : ℕ)
      → Sourced s es
      → SourcedState es key now (classify cache cfg s key now)
  unfolding classify state_of
  classify-Sourced s es key now h = elim (Option-cases (get s key)) [
    | inl e ↦
        subst (λ (o : Option (CacheEntry V)). SourcedState es key now (state_of now o)) (sym e) tt
    | inr (entry, e) ↦
        subst (λ (o : Option (CacheEntry V)). SourcedState es key now (state_of now o)) (sym e)
          (entry_state-Sourced es key now entry.stored_at entry.outcome (h key entry e))
  ]

  later-Sourced :
      (s : Store) (es : List (Event V)) (e : Event V) → Sourced s es → Sourced s (e ∷ es)
  later-Sourced s es e h key entry g = earlier (h key entry g)

module _ {V : Type 0} (cache : Cache (CacheEntry V)) (laws : CacheLaws cache) (cfg : Settings) where
  open cache use {Store, empty, get, set}

  set-Sourced :
      (s : Store) (es : List (Event V)) (e : Event V) (j : ℕ) (new : CacheEntry V) (ttl : ℕ)
      → Sourced cache cfg s es
      → Returned j new.outcome new.stored_at (e ∷ es)
      → Sourced cache cfg (set s j new ttl) (e ∷ es)
  set-Sourced s es e j new ttl h r key entry g = elim (Bool-cases (j == key)) [
    | inl t ↦
        let same : j ≡ key = ground (arith, t) in
        let stored = subst (λ (k : ℕ). get (set s j new ttl) k ≡ some entry) (sym same) g in
        elim (laws.get_set s j new ttl) [
          | inl found ↦
              subst (λ (k : ℕ). Returned k entry.outcome entry.stored_at (e ∷ es)) same
                (subst (λ (n : CacheEntry V). Returned j n.outcome n.stored_at (e ∷ es))
                  (ap (λ (o : Option (CacheEntry V)). elim o [ none ↦ new | some n ↦ n ])
                    (sym found ∙ stored))
                  r)
          | inr lost ↦ absurd (cc (sym lost ∙ stored))
        ]
    | inr f ↦
        let differ : j ≢ key = ground (arith, f) in
        elim (laws.get_set_other s j key new ttl differ) [
          | inl kept ↦ earlier (h key entry (sym kept ∙ g))
          | inr lost ↦ absurd (cc (sym lost ∙ g))
        ]
  ]

  execute-Sourced :
      (rc : ReadThroughCache cache cfg) (es : List (Event V)) (key now later : ℕ) (forced : Bool)
      (stale : Option V) (own : Result V)
      → Sourced cache cfg rc.store es
      → Sourced cache cfg
          (execute cache cfg rc key stale later own).0.store
          (calls (some key) forced now later own ∷ es)
  unfolding execute store_value store_negative
  execute-Sourced rc es key now later forced stale (ok v) h =
      set-Sourced rc.store es _ key _ _ h in_call
  execute-Sourced rc es key now later forced (some w) (err e) h =
      later-Sourced cache cfg rc.store es _ h
  execute-Sourced rc es key now later forced none (err e) h =
      elim (Bool-cases (ltb 0 cfg.neg_ttl)) [
        | inl t ↦ rw t (set-Sourced rc.store es _ key _ _ h in_call)
        | inr f ↦ rw f (later-Sourced cache cfg rc.store es _ h)
      ]

  serve-Sourced :
      (rc : ReadThroughCache cache cfg) (es : List (Event V)) (key now later : ℕ) (forced : Bool)
      (st : EntryState V) (own : Result V)
      → Sourced cache cfg rc.store es
      → Sourced cache cfg
          (serve cache cfg rc key st later own).0.store
          (calls (some key) forced now later own ∷ es)
  unfolding serve begin_refresh
  serve-Sourced rc es key now later forced entry_miss own h =
      execute-Sourced rc es key now later forced none own h
  serve-Sourced rc es key now later forced (entry_fresh v) own h =
      later-Sourced cache cfg rc.store es _ h
  serve-Sourced rc es key now later forced (entry_refresh_ahead v) own h =
      elim (Bool-cases (contains rc.refreshing key)) [
        | inl t ↦ rw t (later-Sourced cache cfg rc.store es _ h)
        | inr f ↦ rw f (later-Sourced cache cfg rc.store es _ h)
      ]
  serve-Sourced rc es key now later forced (entry_stale v) own h =
      execute-Sourced rc es key now later forced (some v) own h
  serve-Sourced rc es key now later forced (entry_negative_hit e) own h =
      later-Sourced cache cfg rc.store es _ h

  aged :
      (age : Store → Store) (s : Store) (es : List (Event V))
      → ((t : Store) (k : ℕ) → (get (age t) k ≡ get t k) ⊎ (get (age t) k ≡ none))
      → Sourced cache cfg s es
      → Sourced cache cfg (age s) es
  aged age s es old h key entry g = elim (old s key) [
    | inl kept ↦ h key entry (sym kept ∙ g)
    | inr lost ↦ absurd (cc (sym lost ∙ g))
  ]

  after-Sourced :
      (age : Store → Store) (es : List (Event V))
      → ((t : Store) (k : ℕ) → (get (age t) k ≡ get t k) ⊎ (get (age t) k ≡ none))
      → Sourced cache cfg (after cache cfg age es).store es
  unfolding after do_read_through refresh end_refresh store_value new_read_through_cache
  after-Sourced age [] old = λ key entry g. absurd (cc (sym (laws.get_empty key) ∙ g))
  after-Sourced age (calls none forced now later r ∷ es) old =
      later-Sourced cache cfg _ es _ (aged age _ es old (after-Sourced age es old))
  after-Sourced age (calls (some key) forced now later r ∷ es) old =
      serve-Sourced _ es key now later forced _ r (aged age _ es old (after-Sourced age es old))
  after-Sourced age (reloads key now (ok v) ∷ es) old =
      set-Sourced _ es _ key _ _ (aged age _ es old (after-Sourced age es old)) in_reload
  after-Sourced age (reloads key now (err e) ∷ es) old =
      later-Sourced cache cfg _ es _ (aged age _ es old (after-Sourced age es old))

  -- Over any history of calls, reloads and losses of entries, the answer to a call for a key is what its own
  -- execution of the work returned, or a value or an error that the work returned for the key before, within
  -- the time of its kind; a stale value only where the own execution failed. A forced call executes the work
  -- and returns what that returned.
  pub do_read_through-Justified :
      (age : Store → Store) (es : List (Event V)) (key : ℕ) (forced : Bool) (now later : ℕ)
      (own : Result V)
      → ((t : Store) (k : ℕ) → (get (age t) k ≡ get t k) ⊎ (get (age t) k ≡ none))
      → let rc = after cache cfg age es in
        let answer =
          (do_read_through cache cfg
            (record rc { store = age rc.store })
            (some key)
            forced
            now
            later
            own).1 in
        Justified cache cfg es key now own answer.result answer.executed
        × ((forced ≡ false) ⊎ ((answer.result ≡ own) × (answer.executed ≡ true)))
  unfolding do_read_through serve execute
  do_read_through-Justified age es key false now later own old =
      let rc = after cache cfg age es in
      (
        serve-Justified cache cfg _ es key now later _ own (
            classify-Sourced cache cfg (age rc.store) es key now
              (aged age rc.store es old (after-Sourced age es old))),
        inl refl,
      )
  do_read_through-Justified age es key true now later (ok v) old = (from_work, inr (refl, refl))
  do_read_through-Justified age es key true now later (err e) old = (from_work, inr (refl, refl))
