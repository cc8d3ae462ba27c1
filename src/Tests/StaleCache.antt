-- ===== src/Tests/StaleCache.antt =====
-- stalecache.go at concrete inputs, over a cache that is a function and forgets nothing.
use r8e.Prelude.{
  ℕ, ◌≡◌, refl, Option, none, some, List, [], ◌∷◌, ◌⊎◌, inl, ◌==◌, arith, if◌then◌else◌,
}
use r8e.Errors.{Error, foreign}
use r8e.Retry.{Result, ok, err}
use r8e.StaleCache.{
  Cache, CacheLaws, do_cached, Callback, on_stale_served, on_cache_refreshed, no_callback,
}
use r8e.StaleCache.Freshness.{last_ok, after, do_cached_cases}

abbrev map_cache : Cache ℕ
map_cache = record {
  Store = ℕ → Option ℕ;
  empty = λ k. none;
  get = λ s k. s k;
  set = λ s k v ttl. λ j. if k == j then some v else s j;
}

map_cache_laws : CacheLaws map_cache
map_cache_laws = record {
  get_empty = λ k. refl;
  get_set = λ s k v ttl. ground arith;
  get_set_other = λ s k j v ttl n. ground (arith, n);
}

abbrev calls : List (ℕ × Result ℕ)
calls = (2, ok 30) ∷ (1, err (foreign 0)) ∷ (1, ok 20) ∷ []

abbrev failed : Result ℕ
failed = err (foreign 5)

abbrev filled : ℕ → Option ℕ
filled = after map_cache 60 (λ s. s) calls

abbrev served : (ℕ → Option ℕ) × Result ℕ × Callback
served = do_cached map_cache 60 (after map_cache 60 (λ s. s) calls) 1 (err (foreign 5))

do_cached_cases_example :
    ((v : ℕ) × (failed ≡ ok v) × (served.1 ≡ ok v) × (served.2 ≡ on_cache_refreshed))
    ⊎ ((v : ℕ) × (e : Error) × (failed ≡ err e)
        × (filled 1 ≡ some v)
        × (last_ok calls 1 ≡ some v)
        × (served.1 ≡ ok v)
        × (served.2 ≡ on_stale_served))
    ⊎ ((e : Error) × (failed ≡ err e)
        × (filled 1 ≡ none)
        × (served.1 ≡ err e)
        × (served.2 ≡ no_callback))
do_cached_cases_example =
    do_cached_cases map_cache map_cache_laws 60 (λ s. s) calls 1 failed (λ t k. inl refl)
