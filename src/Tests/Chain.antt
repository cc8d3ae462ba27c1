-- ===== src/Tests/Chain.antt =====
-- order.go and middleware.go at concrete inputs.
use r8e.Prelude.{ℕ, ◌≡◌, refl, List, [], ◌∷◌, ◌↔◌}
use r8e.Chain.{
  Middleware, PatternEntry, chain, sort_stable, sort_patterns, insert, priority_retry,
  priority_fallback, priority_timeout,
}
use r8e.Chain.Order.{IsStableSort, sort_stable_iff}

abbrev entry : ℕ → ℕ → PatternEntry (List ℕ) ℕ
entry name priority = record { mw = ◌∷◌ name; name = name; priority = priority }

abbrev entries : List (PatternEntry (List ℕ) ℕ)
entries =
    entry 1 priority_retry
    ∷ entry 2 priority_timeout
    ∷ entry 3 priority_fallback
    ∷ entry 4 priority_timeout
    ∷ []

abbrev in_order : List (PatternEntry (List ℕ) ℕ)
in_order =
    entry 3 priority_fallback
    ∷ entry 2 priority_timeout
    ∷ entry 4 priority_timeout
    ∷ entry 1 priority_retry
    ∷ []

sort_stable_iff_example : IsStableSort entries in_order ↔ (in_order ≡ sort_stable entries)
sort_stable_iff_example = sort_stable_iff entries in_order

sorted_entries : sort_stable entries ≡ in_order
unfolding sort_stable insert
sorted_entries = refl

run_of_entries : chain (sort_patterns entries) (9 ∷ []) ≡ 3 ∷ 2 ∷ 4 ∷ 1 ∷ 9 ∷ []
unfolding chain sort_patterns sort_stable insert
run_of_entries = refl

abbrev outer : List (Middleware (List ℕ))
outer = ◌∷◌ 1 ∷ []

abbrev inner : List (Middleware (List ℕ))
inner = ◌∷◌ 2 ∷ []

abbrev handled : List ℕ
handled = 9 ∷ []
