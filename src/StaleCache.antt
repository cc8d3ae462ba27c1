-- ===== src/StaleCache.antt =====
-- stalecache.go: stale-on-error caching over a cache of the caller, which is a parameter. `fn` is what
-- the call returned. `Served` says which of the two callbacks fired.
pub mod Freshness
use r8e.Prelude.{ℕ, Bool, true, false, Option, none, some, ◌≡◌, ◌⊎◌, ◌≢◌}
use r8e.Retry.{Result, ok, err}

-- cache.go: Get and Set of the interface Cache; the store is the state of the adapter.
pub record Cache (V : Type 0) : Type 1 where
  pub Store : Type 0
  pub empty : Store
  pub get : Store → ℕ → Option V
  pub set : Store → ℕ → V → ℕ → Store

-- A found value is the one that was set last under the key; an entry may expire or be evicted.
pub record CacheLaws {V : Type 0} (cache : Cache V) : Type 0 where
  pub get_empty : (k : ℕ) → cache.get cache.empty k ≡ none
  pub get_set :
      (s : cache.Store) (k : ℕ) (v : V) (ttl : ℕ)
      → (cache.get (cache.set s k v ttl) k ≡ some v) ⊎ (cache.get (cache.set s k v ttl) k ≡ none)
  pub get_set_other :
      (s : cache.Store) (k j : ℕ) (v : V) (ttl : ℕ)
      → k ≢ j
      → (cache.get (cache.set s k v ttl) j ≡ cache.get s j)
        ⊎ (cache.get (cache.set s k v ttl) j ≡ none)

pub data Callback : Type 0 where
  on_cache_refreshed on_stale_served no_callback : Callback

module _ {V : Type 0} (cache : Cache V) (ttl : ℕ) where
  unfoldable pub do_cached : cache.Store → ℕ → Result V → cache.Store × Result V × Callback
  do_cached s key (ok v) = (cache.set s key v ttl, ok v, on_cache_refreshed)
  do_cached s key (err e) = elim (cache.get s key) [
    | some cached ↦ (s, ok cached, on_stale_served)
    | none ↦ (s, err e, no_callback)
  ]
