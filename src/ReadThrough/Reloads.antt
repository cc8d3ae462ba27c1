-- ===== src/ReadThrough/Reloads.antt =====
-- readthrough.go: over every interleaving of calls and reloads, one reload for each key.
use r8e.Prelude.{
  ℕ, ◌≡◌, refl, sym, ap, ◌∙◌, subst, Bool, true, false, ◌||◌, Option, none, some, List, [], ◌∷◌,
  ◌++◌, ◌==◌, ◌⊎◌, inl, inr, Bool-cases, arith, ltb, if◌then◌else◌,
}
use r8e.Retry.{Result, ok, err}
use r8e.StaleCache.{Cache}
use r8e.ReadThrough.{
  CacheEntry, EntryState, entry_miss, entry_fresh, entry_refresh_ahead, entry_stale,
  entry_negative_hit, Settings, ReadThroughCache, Answer, contains, delete, new_read_through_cache,
  begin_refresh, end_refresh, answer_hit, execute, classify, serve, do_read_through, refresh,
}

-- No key twice.
abbrev pub Distinct : List ℕ → Type 0
Distinct [] = Unit
Distinct (k ∷ ks) = (contains ks k ≡ false) × Distinct ks

contains_other :
    (xs ys : List ℕ) (j k : ℕ)
    → contains (xs ++ (k ∷ ys)) j ≡ false
    → ((k == j) ≡ false) × (contains (xs ++ ys) j ≡ false)
contains_other [] ys j k h = ground (arith, h)
contains_other (i ∷ xs) ys j k h = elim (Bool-cases (i == j)) [
  | inl t ↦ absurd (cc (sym (ap (λ (b : Bool). b || contains (xs ++ (k ∷ ys)) j) t) ∙ h))
  | inr f ↦
      let (differ, absent) =
        contains_other xs ys j k
          (sym (ap (λ (b : Bool). b || contains (xs ++ (k ∷ ys)) j) f) ∙ h) in
      (differ, rw f absent)
]

delete-absent : (l : List ℕ) (k : ℕ) → contains l k ≡ false → delete l k ≡ l
delete-absent [] k h = refl
delete-absent (j ∷ l) k h = elim (Bool-cases (j == k)) [
  | inl t ↦ absurd (cc (sym (ap (λ (b : Bool). b || contains l k) t) ∙ h))
  | inr f ↦ rw f (ap (◌∷◌ j) (delete-absent l k (sym (ap (λ (b : Bool). b || contains l k) f) ∙ h)))
]

delete-at :
    (xs ys : List ℕ) (k : ℕ)
    → Distinct (xs ++ (k ∷ ys))
    → (delete (xs ++ (k ∷ ys)) k ≡ xs ++ ys) × Distinct (xs ++ ys)
delete-at [] ys k (h, d) = (ground (arith, delete-absent ys k h), d)
delete-at (j ∷ xs) ys k (h, d) =
    let (other, absent) = contains_other xs ys j k h in
    let (same, rest) = delete-at xs ys k d in
    let differ : (j == k) ≡ false = ground (arith, other) in
    (rw differ (ap (◌∷◌ j) same), (absent, rest))

module _ {V : Type 0} (cache : Cache (CacheEntry V)) (cfg : Settings) where
  -- The cache, and the keys of the reloads that run.
  pub record System : Type 0 where
    pub rc : ReadThroughCache cache cfg
    pub running : List ℕ

  unfoldable pub called : System → ℕ → Bool → ℕ → ℕ → Result V → System
  called s key forced now later r =
      let (rc, answer) = do_read_through cache cfg s.rc (some key) forced now later r in
      record { rc = rc; running = if answer.reloads then key ∷ s.running else s.running }

  -- A call may start a reload; a reload, any of those that run, ends; the backing cache may change by itself.
  pub data Step : System → System → Type 0 where
    calls :
        (s : System) (key : ℕ) (forced : Bool) (now later : ℕ) (r : Result V)
        → Step s (called s key forced now later r)
    ends :
        (rc : ReadThroughCache cache cfg) (xs ys : List ℕ) (key now : ℕ) (r : Result V)
        → Step
            (record { rc = rc; running = xs ++ (key ∷ ys) })
            (record { rc = (refresh cache cfg rc key now r).0; running = xs ++ ys })
    ages :
        (s : System) (store : cache.Store)
        → Step s (record s { rc = record s.rc { store = store } })

  pub data Reach : System → Type 0 where
    start : Reach (record { rc = new_read_through_cache cache cfg; running = [] })
    then_next : {s t : System} → Reach s → Step s t → Reach t

  -- The keys that are marked are those of the reloads that run, and none of these twice.
  abbrev pub OneReload : System → Type 0
  OneReload s = (s.rc.refreshing ≡ s.running) × Distinct s.running

  -- What a call does to the marks.
  abbrev Marks : List ℕ → ℕ → ReadThroughCache cache cfg × Answer cache cfg → Type 0
  Marks marked key out =
      ((out.0.refreshing ≡ marked) × (out.1.reloads ≡ false))
      ⊎ ((contains marked key ≡ false) × (out.0.refreshing ≡ key ∷ marked) × (out.1.reloads ≡ true))

  execute-Marks :
      (rc : ReadThroughCache cache cfg) (key : ℕ) (stale : Option V) (at : ℕ) (r : Result V)
      → Marks rc.refreshing key (execute cache cfg rc key stale at r)
  unfolding execute
  execute-Marks rc key stale at (ok v) = inl (refl, refl)
  execute-Marks rc key (some v) at (err e) = inl (refl, refl)
  execute-Marks rc key none at (err e) = elim (Bool-cases (ltb 0 cfg.neg_ttl)) [
    | inl t ↦ rw t (inl (refl, refl))
    | inr f ↦ rw f (inl (refl, refl))
  ]

  serve-Marks :
      (rc : ReadThroughCache cache cfg) (key : ℕ) (st : EntryState V) (at : ℕ) (r : Result V)
      → Marks rc.refreshing key (serve cache cfg rc key st at r)
  unfolding serve begin_refresh answer_hit
  serve-Marks rc key entry_miss at r = execute-Marks rc key none at r
  serve-Marks rc key (entry_fresh v) at r = inl (refl, refl)
  serve-Marks rc key (entry_refresh_ahead v) at r = elim (Bool-cases (contains rc.refreshing key)) [
    | inl t ↦ rw t (inl (refl, refl))
    | inr f ↦ rw f (inr (refl, refl, refl))
  ]
  serve-Marks rc key (entry_stale v) at r = execute-Marks rc key (some v) at r
  serve-Marks rc key (entry_negative_hit e) at r = inl (refl, refl)

  called-OneReload :
      (s : System) (key : ℕ) (forced : Bool) (now later : ℕ) (r : Result V)
      → OneReload s
      → OneReload (called s key forced now later r)
  unfolding called do_read_through
  called-OneReload s key forced now later r (same, distinct) =
      let st = if forced then entry_miss else classify cache cfg s.rc.store key now in
      elim (serve-Marks s.rc key st later r) [
        | inl (marks, idle) ↦ rw idle (marks ∙ same, distinct)
        | inr (free, marks, starts) ↦ rw starts (
          marks ∙ ap (◌∷◌ key) same,
          (subst (λ (l : List ℕ). contains l key ≡ false) same free, distinct),
        )
      ]

  ends-OneReload :
      (rc : ReadThroughCache cache cfg) (xs ys : List ℕ) (key now : ℕ) (r : Result V)
      → OneReload (record { rc = rc; running = xs ++ (key ∷ ys) })
      → OneReload (record { rc = (refresh cache cfg rc key now r).0; running = xs ++ ys })
  unfolding refresh end_refresh
  ends-OneReload rc xs ys key now (ok v) (same, distinct) =
      let (gone, rest) = delete-at xs ys key distinct in
      (ap (λ (l : List ℕ). delete l key) same ∙ gone, rest)
  ends-OneReload rc xs ys key now (err e) (same, distinct) =
      let (gone, rest) = delete-at xs ys key distinct in
      (ap (λ (l : List ℕ). delete l key) same ∙ gone, rest)

  Step-OneReload : {s t : System} → Step s t → OneReload s → OneReload t
  Step-OneReload (calls s key forced now later r) h = called-OneReload s key forced now later r h
  Step-OneReload (ends rc xs ys key now r) h = ends-OneReload rc xs ys key now r h
  Step-OneReload (ages s store) h = h

  -- In every reachable state the keys that are marked as refreshing are those of the reloads that run, and
  -- no two of these are for one key.
  pub Reach-OneReload : {s : System} → Reach s → OneReload s
  unfolding new_read_through_cache
  Reach-OneReload start = (refl, tt)
  Reach-OneReload (then_next r step) = Step-OneReload step (Reach-OneReload r)
