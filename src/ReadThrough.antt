-- ===== src/ReadThrough.antt =====
-- readthrough.go: the read-through cache over a cache of the caller, which is a parameter. Keys are numbers
-- and the empty key is `none`. `returned` is what the wrapped work returns, if it is executed, and `later`
-- the time then; the goroutine of a refresh is its start in `trigger_refresh` and its end in `refresh`.
pub mod Answers
pub mod Reloads
use r8e.Prelude.{
  ℕ, ◌+◌, ◌-◌, Bool, true, false, not, ◌&&◌, ◌||◌, Option, none, some, List, [], ◌∷◌, ltb, leb,
  ◌==◌, if◌then◌else◌,
}
use r8e.Errors.{Error}
use r8e.Retry.{Result, ok, err}
use r8e.StaleCache.{Cache}
use r8e.Policy.Options.{CacheOption, apply_cache_options}

-- CacheEntry: a value or the error of a negative entry.
pub record CacheEntry (V : Type 0) : Type 0 where
  pub outcome : Result V
  pub stored_at : ℕ

-- entryState, each with what the entry holds.
pub data EntryState (V : Type 0) : Type 0 where
  entry_miss : EntryState V
  entry_fresh entry_refresh_ahead entry_stale : V → EntryState V
  entry_negative_hit : Error → EntryState V

pub data Hook : Type 0 where
  on_cache_hit on_cache_miss on_cache_stored on_stale_served on_cache_refreshed : Hook

pub record Settings : Type 0 where
  pub fresh_ttl : ℕ
  pub stale_ttl : ℕ
  pub neg_ttl : ℕ
  pub refresh_ttl : ℕ

-- NewReadThroughCache
unfoldable pub settings : ℕ → List CacheOption → Settings
unfolding apply_cache_options
settings ttl opts =
    let cfg = apply_cache_options opts (record { stale_ttl = 0; neg_ttl = 0; refresh_ttl = 0 }) in
    record {
      fresh_ttl = ttl;
      stale_ttl = cfg.stale_ttl;
      neg_ttl = cfg.neg_ttl;
      refresh_ttl = cfg.refresh_ttl;
    }

-- The state of an entry of the given age.
unfoldable pub entry_state : {V : Type 0} → Settings → CacheEntry V → ℕ → EntryState V
entry_state cfg entry age = elim entry.outcome [
  | err e ↦ if ltb age cfg.neg_ttl then entry_negative_hit e else entry_miss
  | ok v ↦
      if ltb age cfg.fresh_ttl
      then if ltb 0 cfg.refresh_ttl && leb cfg.refresh_ttl age
        then entry_refresh_ahead v
        else entry_fresh v
      else if ltb age (cfg.fresh_ttl + cfg.stale_ttl)
      then entry_stale v
      else entry_miss
]

abbrev pub contains : List ℕ → ℕ → Bool
contains [] k = false
contains (j ∷ js) k = j == k || contains js k

abbrev pub delete : List ℕ → ℕ → List ℕ
delete [] k = []
delete (j ∷ js) k = let kept = delete js k in if j == k then kept else j ∷ kept

module _ {V : Type 0} (cache : Cache (CacheEntry V)) (cfg : Settings) where
  -- The backing cache, and the keys whose reload is in flight.
  pub record ReadThroughCache : Type 0 where
    pub store : cache.Store
    pub refreshing : List ℕ

  -- What a call returns, whether it executed the work and started a reload, and the hooks that fired.
  pub record Answer : Type 0 where
    pub result : Result V
    pub executed : Bool
    pub reloads : Bool
    pub hooks : List Hook

  unfoldable pub new_read_through_cache : ReadThroughCache
  new_read_through_cache = record { store = cache.empty; refreshing = [] }

  unfoldable pub classify : cache.Store → ℕ → ℕ → EntryState V
  unfolding entry_state
  classify s key now = elim (cache.get s key) [
    | none ↦ entry_miss
    | some entry ↦ entry_state cfg entry (now - entry.stored_at)
  ]

  unfoldable pub store_value : cache.Store → ℕ → V → ℕ → cache.Store
  store_value s key v now =
      cache.set s key (record { outcome = ok v; stored_at = now }) (cfg.fresh_ttl + cfg.stale_ttl)

  unfoldable pub store_negative : cache.Store → ℕ → Error → ℕ → cache.Store
  store_negative s key e now =
      cache.set s key (record { outcome = err e; stored_at = now }) cfg.neg_ttl

  unfoldable pub begin_refresh : ReadThroughCache → ℕ → ReadThroughCache × Bool
  begin_refresh rc key =
      if contains rc.refreshing key
      then (rc, false)
      else (record rc { refreshing = key ∷ rc.refreshing }, true)

  unfoldable pub end_refresh : ReadThroughCache → ℕ → ReadThroughCache
  end_refresh rc key = record rc { refreshing = delete rc.refreshing key }

  unfoldable pub answer_hit : Result V → Bool → Answer
  answer_hit r reloads = record {
    result = r;
    executed = false;
    reloads = reloads;
    hooks = on_cache_hit ∷ [];
  }

  -- The work is executed and returns at the time `later`; there may be a stale value.
  unfoldable pub execute :
      ReadThroughCache → ℕ → Option V → ℕ → Result V → ReadThroughCache × Answer
  unfolding store_value store_negative
  execute rc key stale later (ok v) = (
    record rc { store = store_value rc.store key v later },
    record {
      result = ok v;
      executed = true;
      reloads = false;
      hooks = on_cache_miss ∷ on_cache_stored ∷ [];
    },
  )
  execute rc key (some value) later (err e) = (
    rc,
    record {
      result = ok value;
      executed = true;
      reloads = false;
      hooks = on_cache_miss ∷ on_stale_served ∷ [];
    },
  )
  execute rc key none later (err e) = (
    if ltb 0 cfg.neg_ttl then record rc { store = store_negative rc.store key e later } else rc,
    record { result = err e; executed = true; reloads = false; hooks = on_cache_miss ∷ [] },
  )

  -- Do for a key, by the state of its entry.
  unfoldable pub serve :
      ReadThroughCache → ℕ → EntryState V → ℕ → Result V → ReadThroughCache × Answer
  unfolding answer_hit begin_refresh execute
  serve rc key entry_miss later returned = execute rc key none later returned
  serve rc key (entry_fresh v) later returned = (rc, answer_hit (ok v) false)
  serve rc key (entry_refresh_ahead v) later returned =
      let (claimed, won) = begin_refresh rc key in (claimed, answer_hit (ok v) won)
  serve rc key (entry_stale v) later returned = execute rc key (some v) later returned
  serve rc key (entry_negative_hit e) later returned = (rc, answer_hit (err e) false)

  unfoldable pub do_read_through :
      ReadThroughCache → Option ℕ → Bool → ℕ → ℕ → Result V → ReadThroughCache × Answer
  unfolding classify serve
  do_read_through rc none forced now later returned =
      (rc, record { result = returned; executed = true; reloads = false; hooks = [] })
  do_read_through rc (some key) forced now later returned =
      serve rc key (if forced then entry_miss else classify rc.store key now) later returned

  -- The end of a reload, with what the work returned.
  unfoldable pub refresh : ReadThroughCache → ℕ → ℕ → Result V → ReadThroughCache × List Hook
  unfolding store_value end_refresh
  refresh rc key now (ok v) = (
    end_refresh (record rc { store = store_value rc.store key v now }) key,
    on_cache_stored ∷ on_cache_refreshed ∷ [],
  )
  refresh rc key now (err e) = (end_refresh rc key, [])
