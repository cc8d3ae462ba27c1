-- ===== src/Sheddability.antt =====
-- sheddability.go: how readily a call may be shed. Of a context only the value under the key of the
-- package is read: it is an option.
use r8e.Prelude.{Option, none, some, Bool, true, ◌||◌}
use r8e.Prelude.Float.{Float}

pub data Sheddability : Type 0 where
  sheddability_default sheddability_never sheddability_always : Sheddability

abbrev pub with_sheddability : Option Sheddability → Sheddability → Option Sheddability
with_sheddability ctx s = some s

abbrev pub sheddability_from_ctx : Option Sheddability → Sheddability
sheddability_from_ctx none = sheddability_default
sheddability_from_ctx (some s) = s

-- The switch by which the throttler and the SLO governor admit a call, given the probability to shed
-- and the value that the sampler draws.
module _ (fl : Float) where
  open fl use {Carrier, le, of_int}

  unfoldable pub admits : Sheddability → Carrier → Carrier → Bool
  admits sheddability_never prob sample = true
  admits sheddability_always prob sample = le prob (of_int 0)
  admits sheddability_default prob sample = le prob (of_int 0) || le prob sample
