-- ===== src/Breaker/Window.antt =====
-- circuitbreaker.go: slowCallWindow, the count-based window of slow-call verdicts.
use r8e.Prelude.{
  ℕ, ◌+◌, ◌-◌, ◌%◌, Bool, false, List, [], length, get_or, set, replicate, ltb, ◌==◌, if◌then◌else◌,
}
use r8e.Prelude.Float.{Float}

pub record SlowCallWindow : Type 0 where
  pub ring : List Bool
  pub pos : ℕ
  pub filled : ℕ
  pub slow : ℕ

-- The zero value.
abbrev pub empty_window : SlowCallWindow
empty_window = record { ring = []; pos = 0; filled = 0; slow = 0 }

abbrev at_least_one : ℕ → ℕ
at_least_one n = if ltb n 1 then 1 else n

-- The window that `observe` writes into: a new one where the length has changed.
unfoldable pub resized : SlowCallWindow → ℕ → SlowCallWindow
resized w size =
    let length' = at_least_one size in
    if length w.ring == length'
    then w
    else (record { ring = replicate length' false; pos = 0; filled = 0; slow = 0 })

-- Frees the slot at `pos`: its old verdict leaves the count, or the window grows.
unfoldable pub evicted : SlowCallWindow → SlowCallWindow
evicted w =
    if w.filled == length w.ring
    then (if get_or w.ring w.pos false then record w { slow = w.slow - 1 } else w)
    else record w { filled = w.filled + 1 }

unfoldable pub written : SlowCallWindow → Bool → SlowCallWindow
written w verdict = record w {
  ring = set w.ring w.pos verdict;
  slow = if verdict then w.slow + 1 else w.slow;
  pos = (w.pos + 1) % length w.ring;
}

unfoldable pub observe : SlowCallWindow → Bool → ℕ → SlowCallWindow
unfolding resized evicted written
observe w verdict size = written (evicted (resized w size)) verdict

module _ (fl : Float) where
  open fl use {Carrier, le, of_int, div}

  unfoldable pub fraction : SlowCallWindow → Carrier
  fraction w = if w.filled == 0 then of_int 0 else div (of_int w.slow) (of_int w.filled)

  unfoldable pub tripped : SlowCallWindow → ℕ → Carrier → Bool
  unfolding fraction
  tripped w min_calls threshold =
      if ltb w.filled (at_least_one min_calls) then false else le threshold (fraction w)
