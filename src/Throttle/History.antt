-- ===== src/Throttle/History.antt =====
-- throttle.go: the probability to reject, from the calls of the last window.
use r8e.Prelude.{ℕ, ◌+◌, ◌≤◌, not, ◌&&◌, Option, List, [], ◌∷◌, if◌then◌else◌}
use r8e.Prelude.Float.{Float}
use r8e.Errors.{Error}
use r8e.Sheddability.{Sheddability}
use r8e.Window.{epoch_of, live}
use r8e.Window.Log.{Entry}
use r8e.Throttle.{Throttler, admit, is_reject, record_outcome}

module _ (fl : Float) where
  -- A call of the throttler, with its time.
  pub data Call : Type 0 where
    admits : ℕ → Sheddability → fl.Carrier → Call
    records : ℕ → Option Error → Call

  abbrev pub time_of : Call → ℕ
  time_of (admits now shed sample) = now
  time_of (records now e) = now

  -- Lists of calls hold the latest first, and time does not go back.
  abbrev pub InOrder : ℕ → List Call → Type 0
  InOrder now [] = Unit
  InOrder now (c ∷ cs) = (time_of c ≤ now) × InOrder (time_of c) cs

  abbrev pub step : Throttler fl → Call → Throttler fl
  step t (admits now shed sample) = (admit fl t now shed sample).0
  step t (records now e) = record_outcome fl t now e

  pub run : Throttler fl → List Call → Throttler fl
  run t [] = t
  run t (c ∷ cs) = step (run t cs) c

  -- What was requested and accepted in the ten buckets that end with an epoch.
  pub requests : Throttler fl → List Call → ℕ → ℕ
  requests t [] current = 0
  requests t (admits now shed sample ∷ cs) current =
      let before = requests t cs current in
      if live (epoch_of t.bucket_nanos now) current then before + 1 else before
  requests t (records now e ∷ cs) current = requests t cs current

  pub accepts : Throttler fl → List Call → ℕ → ℕ
  unfolding is_reject
  accepts t [] current = 0
  accepts t (admits now shed sample ∷ cs) current = accepts t cs current
  accepts t (records now e ∷ cs) current =
      let before = accepts t cs current in
      if not (is_reject fl t e) && live (epoch_of t.bucket_nanos now) current
      then before + 1
      else before

  log : Throttler fl → List Call → List Entry
  log t [] = []
  log t (admits now shed sample ∷ cs) =
      record { epoch = epoch_of t.bucket_nanos now; total = 1; marked = 0 } ∷ log t cs
  log t (records now e ∷ cs) =
      let rest = log t cs in
      if is_reject fl t e
      then rest
      else record { epoch = epoch_of t.bucket_nanos now; total = 0; marked = 1 } ∷ rest
