-- ===== src/Tests/RateLimiter.antt =====
-- ratelimit.go at concrete inputs, over numbers of thousandths.
use r8e.Prelude.{ℕ, ◌+◌, ◌*◌, ◌^◌, refl, Option, none, some, List, [], ◌∷◌, arith}
use r8e.Prelude.Thousandths.{thousandths, thousandths_laws}
use r8e.Errors.{Error, sentinel, err_rate_limited, foreign}
use r8e.RateLimiter.{
  RateLimiter, new_rate_limiter, aimd, claim, add_tokens, try_acquire, deposit, clamp_tokens,
}
use r8e.RateLimiter.Aimd.{
  aimd_min_rate, aimd_max_rate, aimd_increase, aimd_backoff, aimd_interval, resolve, new_aimd_state,
  apply_aimd_options, unset,
}
use r8e.RateLimiter.System.{
  System, Reach, Balance, begin, later, claims, computes, loads, deposits, acquires,
  stores_capacity, clamps, Reach-Balance,
}
use r8e.RateLimiter.Adaptation.{Adapts, record_all, record_all-Adapts}

-- Two calls a second, from time 0; the controller adapts once a second at most.
abbrev limiter : RateLimiter thousandths
limiter = new_rate_limiter thousandths 2000 0 (
    aimd (
      aimd_min_rate 500
      ∷ aimd_max_rate 4000
      ∷ aimd_increase 250
      ∷ aimd_backoff 500
      ∷ aimd_interval 1000
      ∷ [])
    ∷ [])

-- The call takes a token while a refill is under way, which has loaded the old capacity when the
-- capacity is lowered.
-- A call takes a token; a refill then loads the capacity, which is lowered before the deposit.
abbrev at_start : System thousandths
at_start = record { limiter = limiter; refills = []; granted = 0; credits = [] }

abbrev late : System thousandths
late = record {
  limiter = record limiter { tokens = 10 ^ 9 + 1000; last_nano = 500; capacity = 10 ^ 9 };
  refills = [];
  granted = 1;
  credits = (500, 2000) ∷ [];
}

late-Reach : Reach thousandths limiter late
unfolding try_acquire claim new_rate_limiter add_tokens deposit clamp_tokens
late-Reach =
    later
      (later
        (later
          (later
            (later (later (later begin (acquires at_start)) (claims _ 500))
              (computes _ [] [] 500 refl))
            (loads _ [] [] 1000 refl))
          (stores_capacity _ (10 ^ 9)))
        (clamps _ (10 ^ 9)))
      (deposits _ [] [] 1000 (2 * 10 ^ 9) refl)

Reach-Balance_example : Balance thousandths limiter late
Reach-Balance_example = Reach-Balance thousandths limiter late-Reach

abbrev outcomes : List (ℕ × Option Error)
outcomes =
    (500, none)
    ∷ (1000, some (sentinel err_rate_limited))
    ∷ (1500, none)
    ∷ (2100, some (foreign 1))
    ∷ []

limiter-Adapts : Adapts thousandths thousandths_laws limiter 1000 0
unfolding new_rate_limiter resolve new_aimd_state apply_aimd_options unset
limiter-Adapts = record {
  ctrl =
      new_aimd_state thousandths
        (resolve thousandths
          (record {
            classifier = none;
            min_rate = 500;
            max_rate = 4000;
            increase = 250;
            backoff = 500;
            interval = 1000;
          })
          2000)
        2000 0;
  controlled = refl;
  in_range = record {
    min_nonneg = refl;
    min_le = refl;
    le_max = refl;
    increase_nonneg = refl;
    backoff_nonneg = refl;
    backoff_le_one = refl;
  };
  positive = omega arith;
  same_interval = refl;
  last = omega arith;
}

record_all-Adapts_example :
    Adapts thousandths thousandths_laws
      (record_all thousandths limiter outcomes).0
      1000
      ((record_all thousandths limiter outcomes).1 * 1000 + 0)
record_all-Adapts_example =
    record_all-Adapts thousandths thousandths_laws limiter 1000 0 outcomes limiter-Adapts
