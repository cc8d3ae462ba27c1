-- ===== src/Slo/History.antt =====
-- slo.go: the probability to shed, from the outcomes of the last two windows.
use r8e.Prelude.{ℕ, ◌+◌, ◌≤◌, ◌&&◌, Option, List, [], ◌∷◌, if◌then◌else◌}
use r8e.Prelude.Float.{Float}
use r8e.Errors.{Error}
use r8e.Window.{epoch_of, live, no_buckets}
use r8e.Window.Log.{Entry, observe_all}
use r8e.Slo.{SloGovernor, SloWindow, is_burn, record_outcome}

module _ (fl : Float) where
  -- The calls of Record: their times and outcomes, the latest first. Time does not go back.
  abbrev pub InOrder : ℕ → List (ℕ × Option Error) → Type 0
  InOrder now [] = Unit
  InOrder now ((at, e) ∷ cs) = (at ≤ now) × InOrder at cs

  pub run : SloGovernor fl → List (ℕ × Option Error) → SloGovernor fl
  run g [] = g
  run g ((at, e) ∷ cs) = record_outcome fl (run g cs) at e

  -- The outcomes in the ten buckets that end with the one of `now`, and the failures among them.
  pub outcomes : SloGovernor fl → ℕ → List (ℕ × Option Error) → ℕ → ℕ
  outcomes g nanos [] now = 0
  outcomes g nanos ((at, e) ∷ cs) now =
      let before = outcomes g nanos cs now in
      if live (epoch_of nanos at) (epoch_of nanos now) then before + 1 else before

  pub failures : SloGovernor fl → ℕ → List (ℕ × Option Error) → ℕ → ℕ
  unfolding is_burn
  failures g nanos [] now = 0
  failures g nanos ((at, e) ∷ cs) now =
      let before = failures g nanos cs now in
      if live (epoch_of nanos at) (epoch_of nanos now) && is_burn fl g e then before + 1 else before

  log : SloGovernor fl → ℕ → List (ℕ × Option Error) → List Entry
  unfolding is_burn
  log g nanos [] = []
  log g nanos ((at, e) ∷ cs) =
      record { epoch = epoch_of nanos at; total = 1; marked = if is_burn fl g e then 1 else 0 }
      ∷ log g nanos cs

  filled : SloGovernor fl → ℕ → List (ℕ × Option Error) → SloWindow
  filled g nanos cs = record {
    bucket_nanos = nanos;
    buckets = observe_all no_buckets (log g nanos cs);
  }

  -- The governor `g` after the calls.
  after : SloGovernor fl → List (ℕ × Option Error) → SloGovernor fl
  unfolding filled
  after g cs = record g {
    short = filled g g.short.bucket_nanos cs;
    long = filled g g.long.bucket_nanos cs;
  }
