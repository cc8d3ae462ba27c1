-- ===== src/Tests/Adaptive.antt =====
-- adaptive.go at concrete inputs, over numbers of thousandths.
use r8e.Prelude.{refl, [], ◌∷◌}
use r8e.Prelude.Thousandths.{thousandths, thousandths_laws, thousandths_exact}
use r8e.Policy.Options.{initial_limit, max_limit}
use r8e.Adaptive.{AdaptiveLimiter, new_adaptive_limiter, admit, complete, reconfigure}
use r8e.Adaptive.Band.{
  System, Reach, InBand, begin, later, admits, completes, reconfigures, Reach-InBand,
}

-- A limiter of one call, which completes late, and whose band is then narrowed.
abbrev limiter : AdaptiveLimiter thousandths
limiter = new_adaptive_limiter thousandths (initial_limit 1 ∷ [])

abbrev busy : AdaptiveLimiter thousandths
busy = (admit thousandths limiter 100).0

abbrev narrowed : System thousandths
narrowed = record {
  limiter = reconfigure thousandths (complete thousandths busy 100 900).0 (max_limit 1 ∷ []);
  calls = [];
}

narrowed-Reach : Reach thousandths narrowed
unfolding admit new_adaptive_limiter
narrowed-Reach =
    later
      (later (later (begin (initial_limit 1 ∷ [])) (admits _ 100)) (completes _ [] [] 100 900 refl))
      (reconfigures _ (max_limit 1 ∷ []))

Reach-InBand_example : InBand thousandths narrowed
Reach-InBand_example = Reach-InBand thousandths thousandths_laws thousandths_exact narrowed-Reach
