-- ===== src/Httpx/RoundTrip.antt =====
-- httpx/deadline.go: a deadline that is written by one service and read by the next.
use r8e.Prelude.{
  ℕ, ◌+◌, ◌-◌, ◌*◌, ◌/◌, ◌^◌, ◌≤◌, ◌<◌, ◌≡◌, refl, ap, ◌∙◌, false, Option, none, some, ltb, max,
  arith, if◌then◌else◌,
}
use r8e.Httpx.Deadline.{
  millisecond, max_timeout_millis, with_timeout, deadline_for, inject_deadline, extract_deadline,
}

-- The milliseconds that stand for a remaining time.
abbrev pub budget_ms : ℕ → ℕ
budget_ms remaining = max (remaining / millisecond) 1

module _ {ℓ} {Text : Type ℓ} (format_int : ℕ → Text) (parse_int : Text → Option ℕ) where
  extract_deadline_printed :
      (parent : Option ℕ) (there n : ℕ)
      → 1 ≤ n
      → n ≤ max_timeout_millis
      → ((m : ℕ) → m < 2 ^ 63 → parse_int (format_int m) ≡ some m)
      → extract_deadline format_int parse_int parent there (some (format_int n))
        ≡ with_timeout there parent (n * millisecond)
  unfolding extract_deadline deadline_for
  extract_deadline_printed parent there n low high reads =
      let unclamped : ltb max_timeout_millis n ≡ false = ground arith in
      let positive : ltb n 1 ≡ false = ground arith in
      ap (deadline_for parent there) (reads n (omega arith)) ∙ rw (unclamped, positive) refl

  -- A deadline that is injected and then extracted with another clock leaves the time that remained, in whole
  -- milliseconds and at least one of these, or what the parent's own deadline leaves; this is at most a
  -- millisecond less than the time that remained, and more only where that was below a millisecond. Times are
  -- within an int64, of which a printed one is read back. Without a deadline the header stays as it was.
  pub extract_deadline-inject_deadline :
      (deadline now there : ℕ) (parent : Option ℕ) (header : Option Text)
      → deadline - now < 2 ^ 63
      → ((n : ℕ) → n < 2 ^ 63 → parse_int (format_int n) ≡ some n)
      → let sent = (inject_deadline format_int parse_int (some deadline) now header).0 in
        let left = budget_ms (deadline - now) * millisecond in
        (extract_deadline format_int parse_int parent there sent ≡ with_timeout there parent left)
        × (left ≤ max (deadline - now) millisecond)
        × (deadline - now < left + millisecond)
        × (inject_deadline format_int parse_int none now header ≡ (header, false))
  unfolding inject_deadline extract_deadline
  extract_deadline-inject_deadline deadline now there parent header bound reads =
      let remaining = deadline - now in
      let sent : (if ltb (remaining / millisecond) 1 then 1 else remaining / millisecond)
          ≡ budget_ms remaining =
        ground arith in
      (
        ap (λ (n : ℕ). extract_deadline format_int parse_int parent there (some (format_int n)))
              sent
            ∙ extract_deadline_printed parent there (budget_ms remaining) (omega arith)
                (omega arith) reads,
        omega arith,
        omega arith,
        refl,
      )
