-- ===== src/Recover/Guarded.antt =====
-- recover.go and fallback.go: no panic and no error leaves a call that both guard.
use r8e.Prelude.{ℕ, ◌≡◌, refl, none, some, ◌⊎◌, inl, inr}
use r8e.Errors.{Error, panic_error}
use r8e.Retry.{ok, err}
use r8e.Recover.{Completion, returned, panicked, do_recover, do_fallback}

-- A call under a fallback value and a recovery returns a value, its own or, after an error or a panic, the
-- fallback; the hook of the fallback gets the error.
pub do_fallback-do_recover {ℓ} :
    {T : Type ℓ} (c : Completion T) (fallback_val : T)
    → let (guarded, used) = do_fallback (do_recover c).0 fallback_val in
      ((v : T) × (c ≡ returned (ok v)) × (guarded ≡ returned (ok v)) × (used ≡ none))
      ⊎ ((e : Error) × ((c ≡ returned (err e)) ⊎ ((p : ℕ) × (c ≡ panicked p) × (e ≡ panic_error p)))
          × (guarded ≡ returned (ok fallback_val))
          × (used ≡ some e))
unfolding do_recover do_fallback
do_fallback-do_recover (returned (ok v)) fallback_val = inl (v, refl, refl, refl)
do_fallback-do_recover (returned (err e)) fallback_val = inr (e, inl refl, refl, refl)
do_fallback-do_recover (panicked p) fallback_val =
    inr (panic_error p, inr (p, refl, refl), refl, refl)
