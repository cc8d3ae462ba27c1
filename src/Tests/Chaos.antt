-- ===== src/Tests/Chaos.antt =====
-- chaos.go at concrete inputs.
use r8e.Prelude.{ℕ, ◌≡◌, refl, false, none, some, List, [], ◌∷◌}
use r8e.Prelude.Thousandths.{thousandths}
use r8e.Retry.{ok}
use r8e.Recover.{returned, panicked}
use r8e.Chaos.{
  ChaosStrategy, Run, kind_latency, kind_behavior, chaos_fault, chaos_latency, chaos_behavior,
  do_chaos,
}
use r8e.Breaker.Options.{clamp_unit_interval}
use r8e.Chaos.Injections.{Disturbed, do_chaos-Disturbed}

-- A fault that is switched off, a latency, and a behavior that panics on half of the calls.
abbrev strategies : List (ChaosStrategy thousandths ℕ ℕ)
strategies =
    chaos_fault thousandths ℕ ℕ 1000 none ((λ ctx. false) ∷ [])
    ∷ chaos_latency thousandths ℕ ℕ 2000 50 []
    ∷ chaos_behavior thousandths ℕ ℕ 500 (some (λ ctx. some 9)) []
    ∷ chaos_fault thousandths ℕ ℕ 1000 none []
    ∷ []

abbrev disturbed : Run thousandths ℕ ℕ
disturbed = do_chaos thousandths ℕ ℕ (λ n. 400) (λ i. none) 3 (returned (ok 7)) strategies

do_chaos-Disturbed_example :
    Disturbed thousandths ℕ ℕ (λ n. 400) (λ i. none) 3 (returned (ok 7)) strategies 0 0 disturbed
do_chaos-Disturbed_example =
    do_chaos-Disturbed thousandths ℕ ℕ (λ n. 400) (λ i. none) 3 (returned (ok 7)) strategies

behavior_panics :
    disturbed ≡ record { completion = panicked 9; injected = kind_latency ∷ kind_behavior ∷ [] }
unfolding do_chaos chaos_fault chaos_latency chaos_behavior clamp_unit_interval
behavior_panics = refl
