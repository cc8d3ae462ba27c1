-- ===== src/Errors/Hints.antt =====
-- retryafter.go: the bounds of the jittered Retry-After delay.
use r8e.Prelude.{ℕ, ◌+◌, ◌-◌, ◌*◌, ◌/◌, ◌≤◌, ◌<◌, arith}
use r8e.Errors.{max_int64, jittered_retry_after}

-- For a delay that an int64 holds and a draw in the range that it is made from, the jittered delay is
-- within a tenth of the delay and an int64 holds it.
pub jittered_retry_after-bounds :
    (delay draw : ℕ)
    → delay ≤ max_int64
    → draw < 2 * (delay / 10) + 1
    → (delay - delay / 10 ≤ jittered_retry_after delay draw)
      × (jittered_retry_after delay draw ≤ delay + delay / 10)
      × (jittered_retry_after delay draw ≤ max_int64)
unfolding jittered_retry_after
jittered_retry_after-bounds delay draw h d = ground arith
