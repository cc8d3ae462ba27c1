-- ===== src/Policy/Layers.antt =====
-- policy.go: the middlewares of a policy in the order in which a call passes them.
use r8e.Prelude.{
  ℕ, zero, suc, ◌≤◌, ◌<◌, ◌≡◌, refl, sym, ap, ◌∙◌, Bool, Bool-cases, inl, inr, none, List, [], ◌∷◌,
  map, All, arith, ◌==◌,
}
use r8e.Prelude.Float.{Float}
use r8e.Chain.{Middleware, PatternEntry, sort_stable, sort_patterns, chain}
use r8e.Chain.Order.{Sorted, IsStableSort, bucket, sort_stable_iff}
use r8e.Chain.Composition.{chain-∷}
use r8e.Policy.{
  Handles, PolicySetup, PolicyOption, Pattern, priority_of, appended, keep, installed, entry,
  entries, constructs, new_policy, check_setup_invariants, apply_options, unset, timeout,
  time_budget, retry, concurrency_budget, circuit_breaker, rate_limiter, bulkhead,
  adaptive_concurrency, adaptive_throttle, slo, hedge, recover, chaos, cache, coalesce, fallback,
  fallback_func,
}

-- The patterns, outermost first.
abbrev pub outermost_first : List Pattern
outermost_first =
    fallback ∷ fallback_func ∷ cache ∷ coalesce ∷ timeout ∷ time_budget ∷ slo ∷ adaptive_throttle
    ∷ circuit_breaker ∷ rate_limiter ∷ bulkhead ∷ adaptive_concurrency ∷ concurrency_budget ∷ retry
    ∷ hedge ∷ recover ∷ chaos ∷ []

same_priority : ℕ → Pattern → Bool
unfolding priority_of
same_priority p x = priority_of x == p

keep_comm : (f g : Pattern → Bool) (xs : List Pattern) → keep f (keep g xs) ≡ keep g (keep f xs)
keep_comm f g [] = refl
keep_comm f g (x ∷ xs) = ground (arith, keep_comm f g xs)

priority_le : (x : Pattern) → priority_of x ≤ 14
unfolding priority_of
priority_le x = ground arith

keep-none : (p : ℕ) (xs : List Pattern) → 14 < p → keep (same_priority p) xs ≡ []
unfolding same_priority
keep-none p [] h = refl
keep-none p (x ∷ xs) h = ground (arith, keep-none p xs h, priority_le x, h)

same_groups : (p : ℕ) → keep (same_priority p) outermost_first ≡ keep (same_priority p) appended
unfolding same_priority priority_of
same_groups zero = refl
same_groups (suc zero) = refl
same_groups (suc (suc zero)) = refl
same_groups (suc (suc (suc zero))) = refl
same_groups (suc (suc (suc (suc zero)))) = refl
same_groups (suc (suc (suc (suc (suc zero))))) = refl
same_groups (suc (suc (suc (suc (suc (suc zero)))))) = refl
same_groups (suc (suc (suc (suc (suc (suc (suc zero))))))) = refl
same_groups (suc (suc (suc (suc (suc (suc (suc (suc zero)))))))) = refl
same_groups (suc (suc (suc (suc (suc (suc (suc (suc (suc zero))))))))) = refl
same_groups (suc (suc (suc (suc (suc (suc (suc (suc (suc (suc zero)))))))))) = refl
same_groups (suc (suc (suc (suc (suc (suc (suc (suc (suc (suc (suc zero))))))))))) = refl
same_groups (suc (suc (suc (suc (suc (suc (suc (suc (suc (suc (suc (suc zero)))))))))))) = refl
same_groups (suc (suc (suc (suc (suc (suc (suc (suc (suc (suc (suc (suc (suc zero))))))))))))) =
    refl
same_groups
      (suc (suc (suc (suc (suc (suc (suc (suc (suc (suc (suc (suc (suc (suc zero)))))))))))))) =
    refl
same_groups
      (suc (suc (suc (suc (suc (suc (suc (suc (suc (suc (suc (suc (suc (suc (suc p))))))))))))))) =
    let q =
      suc (suc (suc (suc (suc (suc (suc (suc (suc (suc (suc (suc (suc (suc (suc p)))))))))))))) in
    keep-none q outermost_first (omega arith) ∙ sym (keep-none q appended (omega arith))

module _ (fl : Float) (h : Handles) {H : Type 0} (mw : PolicySetup fl h → Pattern → Middleware H)
    (s : PolicySetup fl h) where
  layers_of : List Pattern → List (PatternEntry H Pattern)
  layers_of xs = map (entry fl h mw s) (keep (installed fl h mw s) xs)

  bucket-map :
      (p : ℕ) (xs : List Pattern)
      → bucket p (map (entry fl h mw s) xs) ≡ map (entry fl h mw s) (keep (same_priority p) xs)
  unfolding entry same_priority
  bucket-map p [] = refl
  bucket-map p (x ∷ xs) = ground (arith, bucket-map p xs)

  All-keep :
      (f : Pattern → Bool) (n : ℕ) (xs : List Pattern)
      → All (λ (x : Pattern). n ≤ priority_of x) xs
      → All (λ (x : PatternEntry H Pattern). n ≤ x.priority) (map (entry fl h mw s) (keep f xs))
  unfolding entry
  All-keep f n [] v = tt
  All-keep f n (x ∷ xs) (v, vs) = elim (Bool-cases (f x)) [
    | inl t ↦ rw t (v, All-keep f n xs vs)
    | inr e ↦ rw e (All-keep f n xs vs)
  ]

  Ascending : List Pattern → Type 0
  Ascending [] = Unit
  Ascending (x ∷ xs) = All (λ (y : Pattern). priority_of x ≤ priority_of y) xs × Ascending xs

  keep-Sorted :
      (f : Pattern → Bool) (xs : List Pattern)
      → Ascending xs
      → Sorted (map (entry fl h mw s) (keep f xs))
  unfolding entry Ascending
  keep-Sorted f [] v = tt
  keep-Sorted f (x ∷ xs) (v, vs) = elim (Bool-cases (f x)) [
    | inl t ↦ rw t (All-keep f (priority_of x) xs v, keep-Sorted f xs vs)
    | inr e ↦ rw e (keep-Sorted f xs vs)
  ]

  ascending : Ascending outermost_first
  unfolding Ascending priority_of
  ascending = ground arith

  layers-IsStableSort : IsStableSort (entries fl h mw s) (layers_of outermost_first)
  unfolding entries layers_of
  layers-IsStableSort =
      let f = installed fl h mw s in
      record {
        sorted = keep-Sorted f outermost_first ascending;
        stable = λ p.
            bucket-map p (keep f outermost_first)
            ∙ ap (map (entry fl h mw s)) (
                keep_comm (same_priority p) f outermost_first
                ∙ ap (keep f) (same_groups p)
                ∙ keep_comm f (same_priority p) appended)
            ∙ sym (bucket-map p (keep f appended));
      }

  sorted_patterns :
      (es : List (PatternEntry H Pattern))
      → sort_patterns es ≡ map (λ (x : PatternEntry H Pattern). x.mw) (sort_stable es)
  unfolding sort_patterns sort_stable
  sorted_patterns [] = refl
  sorted_patterns (e ∷ es) = refl

  -- The call through the middlewares of patterns, the first one outermost.
  pub nested : List Pattern → H → H
  nested [] next = next
  nested (p ∷ ps) next = mw s p (nested ps next)

  chain-nested :
      (ps : List Pattern) (next : H)
      → chain (map (λ (x : PatternEntry H Pattern). x.mw) (map (entry fl h mw s) ps)) next
        ≡ nested ps next
  unfolding nested entry chain
  chain-nested [] next = refl
  chain-nested (p ∷ ps) next =
      chain-∷ (mw s p) (map (λ (x : PatternEntry H Pattern). x.mw) (map (entry fl h mw s) ps)) next
      ∙ ap (mw s p) (chain-nested ps next)

  -- The chain that NewPolicy builds from a setup.
  entries-nested :
      (next : H)
      → chain (sort_patterns (entries fl h mw s)) next
        ≡ nested (keep (installed fl h mw s) outermost_first) next
  unfolding layers_of
  entries-nested next =
      let es = entries fl h mw s in
      let sorted = (sort_stable_iff es (layers_of outermost_first)).0 layers-IsStableSort in
      ap (λ (ms : List (Middleware H)). chain ms next)
        (sorted_patterns es ∙ ap (map (λ (x : PatternEntry H Pattern). x.mw)) (sym sorted))
      ∙ chain-nested (keep (installed fl h mw s) outermost_first) next

module _ (fl : Float) (h : Handles) {H : Type 0}
    (mw : PolicySetup fl h → Pattern → Middleware H) where
  -- A policy that NewPolicy builds without a panic passes a call through the middlewares of
  -- the patterns that its setup has, and of no others, in one fixed order, the outermost first: fallback, cache, coalescing, timeout, time budget, SLO, throttle, circuit breaker, rate limiter,
  -- bulkhead, adaptive limiter, concurrency budget, retry, hedge, panic recovery, chaos, the call.
  pub new_policy-nested :
      (opts : List (PolicyOption fl h)) (m : Middleware H) (next : H)
      → new_policy fl h mw opts ≡ constructs m
      → let s = apply_options fl h opts (unset fl h) in
        (check_setup_invariants fl h s ≡ none)
        × (m next ≡ nested fl h mw s (keep (installed fl h mw s) outermost_first) next)
  unfolding new_policy
  new_policy-nested opts m next e =
      let s = apply_options fl h opts (unset fl h) in
      ground (arith, e, entries-nested fl h mw s next)
