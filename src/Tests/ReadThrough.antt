-- ===== src/Tests/ReadThrough.antt =====
-- readthrough.go and httpx/deadline.go at concrete inputs, over a cache that is a function.
use r8e.Prelude.{
  ℕ, ◌+◌, ◌*◌, ◌≤◌, ◌<◌, ◌≡◌, refl, true, false, Option, none, some, List, [], ◌∷◌, ◌⊎◌, inl, ◌==◌,
  max, arith, if◌then◌else◌,
}
use r8e.Errors.{foreign}
use r8e.Retry.{ok, err}
use r8e.StaleCache.{Cache, CacheLaws}
use r8e.ReadThrough.{CacheEntry, Settings, do_read_through, new_read_through_cache}
use r8e.ReadThrough.Answers.{Event, calls, after, Justified, do_read_through-Justified}
use r8e.ReadThrough.Reloads
use r8e.ReadThrough.Reloads.{
  System, Reach, start, then_next, Step, called, ends, Distinct, Reach-OneReload,
}
use r8e.Httpx.Deadline.{millisecond, with_timeout, inject_deadline, extract_deadline}
use r8e.Httpx.RoundTrip.{budget_ms, extract_deadline-inject_deadline}

abbrev entry_cache : Cache (CacheEntry ℕ)
entry_cache = record {
  Store = ℕ → Option (CacheEntry ℕ);
  empty = λ k. none;
  get = λ s k. s k;
  set = λ s k v ttl. λ j. if k == j then some v else s j;
}

entry_cache_laws : CacheLaws entry_cache
entry_cache_laws = record {
  get_empty = λ k. refl;
  get_set = λ s k v ttl. ground arith;
  get_set_other = λ s k j v ttl n. ground (arith, n);
}

abbrev cfg : Settings
cfg = record { fresh_ttl = 10; stale_ttl = 20; neg_ttl = 5; refresh_ttl = 6 }

-- The work for key 1 returned 7 at 100; at 115 it fails, and the stale value is served.
abbrev history : List (Event ℕ)
history = calls (some 1) false 98 100 (ok 7) ∷ []

do_read_through-Justified_example :
    let rc = after entry_cache cfg (λ s. s) history in
    let answer = (do_read_through entry_cache cfg rc (some 1) false 115 116 (err (foreign 2))).1 in
    Justified entry_cache cfg history 1 115 (err (foreign 2)) answer.result answer.executed
    × ((false ≡ false) ⊎ ((answer.result ≡ err (foreign 2)) × (answer.executed ≡ true)))
do_read_through-Justified_example =
    do_read_through-Justified entry_cache entry_cache_laws cfg (λ s. s) history 1 false 115 116
      (err (foreign 2)) (λ t k. inl refl)

stale_is_served :
    (do_read_through entry_cache cfg
      (after entry_cache cfg (λ s. s) history)
      (some 1)
      false
      115
      116
      (err (foreign 2))).1.result
    ≡ ok 7
unfolding do_read_through after new_read_through_cache
stale_is_served = refl

-- A value that was stored at 100 is reloaded at 107, once.
abbrev filled : System entry_cache cfg
filled =
    called entry_cache cfg (record { rc = new_read_through_cache entry_cache cfg; running = [] }) 1
      false 98 100 (ok 7)

abbrev reloading : System entry_cache cfg
reloading =
    called entry_cache cfg (called entry_cache cfg filled 1 false 107 107 (ok 8)) 1 false 108 108
      (ok 9)

reloading_reached : Reach entry_cache cfg reloading
reloading_reached =
    then_next
      (then_next (then_next start (Reloads.calls _ 1 false 98 100 (ok 7)))
        (Reloads.calls _ 1 false 107 107 (ok 8)))
      (Reloads.calls _ 1 false 108 108 (ok 9))

Reach-OneReload_example : (reloading.rc.refreshing ≡ reloading.running) × Distinct reloading.running
Reach-OneReload_example = Reach-OneReload entry_cache cfg reloading_reached

one_reload : reloading.running ≡ 1 ∷ []
unfolding called do_read_through new_read_through_cache
one_reload = refl

-- Numbers stand for their own texts.
extract_deadline-inject_deadline_example :
    (extract_deadline
        (λ n. n)
        (λ n. some n)
        (some 9000000000)
        5000000
        (inject_deadline (λ n. n) (λ n. some n) (some 2500000) 1000000 none).0
      ≡ with_timeout 5000000 (some 9000000000) (budget_ms 1500000 * millisecond))
    × (budget_ms 1500000 * millisecond ≤ max 1500000 millisecond)
    × (1500000 < budget_ms 1500000 * millisecond + millisecond)
    × (inject_deadline (λ n. n) (λ n. some n) none 1000000 none ≡ (none, false))
extract_deadline-inject_deadline_example =
    extract_deadline-inject_deadline (λ n. n) (λ n. some n) 2500000 1000000 5000000
      (some 9000000000) none (omega arith) (λ n h. refl)
