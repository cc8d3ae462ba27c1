-- ===== src/Recover.antt =====
-- recover.go and fallback.go: a call that may panic, and what the two innermost and outermost patterns make
-- of it. A value that is passed to panic is a number; the stack of a PanicError is left out.
pub mod Guarded
use r8e.Prelude.{ℕ, Bool, true, false, Option, none, some, List, [], ◌∷◌}
use r8e.Errors.{Error, panic_error}
use r8e.Retry.{Result, ok, err}

-- How a call comes to its end.
pub data Completion {ℓ} (T : Type ℓ) : Type ℓ where
  returned : Result T → Completion T
  panicked : ℕ → Completion T

-- The completion, and the value that the hook OnPanic gets. A panic of the hook itself is swallowed.
unfoldable pub do_recover {ℓ} : {T : Type ℓ} → Completion T → Completion T × Option ℕ
do_recover (returned r) = (returned r, none)
do_recover (panicked value) = (returned (err (panic_error value)), some value)

-- The completion, and the error that the hook OnFallbackUsed gets.
unfoldable pub do_fallback {ℓ} : {T : Type ℓ} → Completion T → T → Completion T × Option Error
do_fallback (returned (ok v)) fallback_val = (returned (ok v), none)
do_fallback (returned (err e)) fallback_val = (returned (ok fallback_val), some e)
do_fallback (panicked value) fallback_val = (panicked value, none)

unfoldable pub do_fallback_func {ℓ} :
    {T : Type ℓ} → Completion T → (Error → Completion T) → Completion T × Option Error
do_fallback_func (returned (ok v)) fallback_fn = (returned (ok v), none)
do_fallback_func (returned (err e)) fallback_fn = (fallback_fn e, some e)
do_fallback_func (panicked value) fallback_fn = (panicked value, none)
