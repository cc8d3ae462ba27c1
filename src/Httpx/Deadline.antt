-- ===== src/Httpx/Deadline.antt =====
-- httpx/deadline.go: the header that carries a deadline between services. Texts and package strconv are
-- parameters: `format_int` prints a number, and `parse_int` reads one; a negative number, which is refused
-- like zero, is read as zero. A header that is missing or empty is `none`. A context is its deadline.
use r8e.Prelude.{
  ℕ, ◌+◌, ◌-◌, ◌*◌, ◌/◌, ◌^◌, Bool, true, false, Option, none, some, ltb, min, if◌then◌else◌,
}

-- time.Millisecond and math.MaxInt64 / int64(time.Millisecond)
abbrev pub millisecond : ℕ
millisecond = 10 ^ 6

abbrev pub max_timeout_millis : ℕ
max_timeout_millis = (2 ^ 63 - 1) / millisecond

-- context.WithTimeout: the new deadline, or that of the parent if it is earlier.
abbrev pub with_timeout : ℕ → Option ℕ → ℕ → Option ℕ
with_timeout now none timeout = some (now + timeout)
with_timeout now (some deadline) timeout = some (min (now + timeout) deadline)

-- The deadline for what was read from the header.
unfoldable pub deadline_for : Option ℕ → ℕ → Option ℕ → Option ℕ
deadline_for parent now none = parent
deadline_for parent now (some ms) =
    let clamped = if ltb max_timeout_millis ms then max_timeout_millis else ms in
    if ltb ms 1 then parent else with_timeout now parent (clamped * millisecond)

module _ {ℓ} {Text : Type ℓ} (format_int : ℕ → Text) (parse_int : Text → Option ℕ) where
  -- The header after the call, for the header before, and whether it was written.
  unfoldable pub inject_deadline : Option ℕ → ℕ → Option Text → Option Text × Bool
  inject_deadline none now header = (header, false)
  inject_deadline (some deadline) now header =
      let ms = (deadline - now) / millisecond in
      (some (format_int (if ltb ms 1 then 1 else ms)), true)

  -- The deadline of the context that is returned.
  unfoldable pub extract_deadline : Option ℕ → ℕ → Option Text → Option ℕ
  unfolding deadline_for
  extract_deadline parent now none = parent
  extract_deadline parent now (some value) = deadline_for parent now (parse_int value)
