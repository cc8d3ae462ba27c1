-- ===== src/Codel.antt =====
-- codel.go: the controlled-delay discipline of a bulkhead's queue. Times and durations are natural
-- numbers of nanoseconds; the zero time is `none`. `now` comes from a monotonic clock.
pub mod Latch
use r8e.Prelude.{
  ℕ, ◌-◌, ◌*◌, Bool, true, false, ◌&&◌, Option, none, some, leb, ltb, ◌==◌, if◌then◌else◌,
}

pub record Codel : Type 0 where
  pub above_since : Option ℕ
  pub target : ℕ
  pub interval : ℕ
  pub overloaded : Bool

unfoldable pub enabled : Codel → Bool
enabled c = ltb 0 c.target

unfoldable pub is_overloaded : Codel → Bool
unfolding enabled
is_overloaded c = c.overloaded && enabled c

unfoldable pub slough_timeout : Codel → ℕ
slough_timeout c = 2 * c.target

unfoldable pub observe : Codel → ℕ → ℕ → Codel
observe c standing now =
    if leb standing c.target
    then record c { above_since = none; overloaded = false }
    else elim c.above_since [
      | none ↦ record c { above_since = some now }
      | some since ↦ if leb c.interval (now - since) then record c { overloaded = true } else c
    ]

unfoldable pub reconfigure : Codel → ℕ → ℕ → Codel
reconfigure c target interval =
    if target == c.target && interval == c.interval
    then c
    else record { above_since = none; target = target; interval = interval; overloaded = false }
