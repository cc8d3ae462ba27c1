-- ===== src/RateLimiter/System.antt =====
-- ratelimit.go: callers that interleave between the atomic updates of Allow, refill and storeRate.
use r8e.Prelude.{
  ℕ, ◌+◌, ◌*◌, ◌≤◌, ◌≡◌, refl, ap, ◌∙◌, Option, none, some, List, [], ◌∷◌, ◌++◌, leb, arith,
  if◌then◌else◌,
}
use r8e.Prelude.Float.{Float}
use r8e.RateLimiter.{RateLimiter, claim, add_tokens, deposit, try_acquire, clamp_tokens, scale}

-- A refill between its atomic steps: it has claimed a time, or computed the tokens to add, or also
-- loaded the capacity.
pub data Refill : Type 0 where
  claimed adding : ℕ → Refill
  capped : ℕ → ℕ → Refill

module _ (fl : Float) where
  -- The limiter, the refills under way, the calls admitted, and the times that were credited, each
  -- with the rate of its credit.
  pub record System : Type 0 where
    pub limiter : RateLimiter fl
    pub refills : List Refill
    pub granted : ℕ
    pub credits : List (ℕ × fl.Carrier)

  -- A claim of no time ends the refill.
  abbrev after_claim : System → Option (RateLimiter fl × ℕ) → System
  after_claim s none = s
  after_claim s (some (rl, elapsed)) = record s {
    limiter = rl;
    refills = claimed elapsed ∷ s.refills;
  }

  pub data Step : System → System → Type 0 where
    claims : (s : System) (now : ℕ) → Step s (after_claim s (claim fl s.limiter now))
    computes :
        (s : System) (xs ys : List Refill) (elapsed : ℕ)
        → s.refills ≡ xs ++ (claimed elapsed ∷ ys)
        → Step s (record s {
          refills =
              if leb (add_tokens fl s.limiter.rate elapsed) 0
              then xs ++ ys
              else xs ++ (adding (add_tokens fl s.limiter.rate elapsed) ∷ ys);
          credits = (elapsed, s.limiter.rate) ∷ s.credits;
        })
    loads :
        (s : System) (xs ys : List Refill) (added : ℕ)
        → s.refills ≡ xs ++ (adding added ∷ ys)
        → Step s (record s { refills = xs ++ (capped added s.limiter.capacity ∷ ys) })
    deposits :
        (s : System) (xs ys : List Refill) (added capacity : ℕ)
        → s.refills ≡ xs ++ (capped added capacity ∷ ys)
        → Step s (record s { limiter = deposit fl s.limiter added capacity; refills = xs ++ ys })
    acquires :
        (s : System)
        → Step s (record s {
          limiter = (try_acquire fl s.limiter).0;
          granted = if (try_acquire fl s.limiter).1 then s.granted + 1 else s.granted;
        })
    -- The stores of storeRate, from Reconfigure or from the controller.
    stores_rate :
        (s : System) (rate : fl.Carrier)
        → Step s (record s { limiter = record s.limiter { rate = rate } })
    stores_capacity :
        (s : System) (capacity : ℕ)
        → Step s (record s { limiter = record s.limiter { capacity = capacity } })
    clamps :
        (s : System) (capacity : ℕ)
        → Step s (record s { limiter = clamp_tokens fl s.limiter capacity })

  pub data Reach (start : RateLimiter fl) : System → Type 0 where
    begin : Reach start (record { limiter = start; refills = []; granted = 0; credits = [] })
    later : {s t : System} → Reach start s → Step s t → Reach start t

  abbrev pub credited_time : List (ℕ × fl.Carrier) → ℕ
  credited_time [] = 0
  credited_time ((elapsed, rate) ∷ cs) = elapsed + credited_time cs

  abbrev pub credited_tokens : List (ℕ × fl.Carrier) → ℕ
  credited_tokens [] = 0
  credited_tokens ((elapsed, rate) ∷ cs) = add_tokens fl rate elapsed + credited_tokens cs

time_in : Refill → ℕ
time_in (claimed elapsed) = elapsed
time_in _ = 0

tokens_in : Refill → ℕ
tokens_in (adding added) = added
tokens_in (capped added capacity) = added
tokens_in _ = 0

pub times : List Refill → ℕ
unfolding time_in
times [] = 0
times (r ∷ rs) = time_in r + times rs

pub amounts : List Refill → ℕ
unfolding tokens_in
amounts [] = 0
amounts (r ∷ rs) = tokens_in r + amounts rs

times-at :
    (xs ys : List Refill) (r : Refill) → times (xs ++ (r ∷ ys)) ≡ time_in r + times (xs ++ ys)
unfolding times
times-at [] ys r = refl
times-at (x ∷ xs) ys r = omega (arith, times-at xs ys r)

amounts-at :
    (xs ys : List Refill) (r : Refill) → amounts (xs ++ (r ∷ ys)) ≡ tokens_in r + amounts (xs ++ ys)
unfolding amounts
amounts-at [] ys r = refl
amounts-at (x ∷ xs) ys r = omega (arith, amounts-at xs ys r)

module _ (fl : Float) (start : RateLimiter fl) where
  pub record Balance (s : System fl) : Type 0 where
    pub time_once :
        start.last_nano + credited_time fl s.credits + times s.refills ≡ s.limiter.last_nano
    pub conserved :
        scale * s.granted + s.limiter.tokens + amounts s.refills
        ≤ start.tokens + credited_tokens fl s.credits

  Step-Balance : {s t : System fl} → Step fl s t → Balance s → Balance t
  unfolding claim deposit try_acquire clamp_tokens times amounts time_in tokens_in
  Step-Balance (claims s now) v = ground arith
  Step-Balance (computes s xs ys elapsed e) v =
      let added = add_tokens fl s.limiter.rate elapsed in
      let t = ap times e ∙ times-at xs ys (claimed elapsed) in
      let a = ap amounts e ∙ amounts-at xs ys (claimed elapsed) in
      ground (arith, t, a, times-at xs ys (adding added), amounts-at xs ys (adding added))
  Step-Balance (loads s xs ys added e) v =
      let t = ap times e ∙ times-at xs ys (adding added) in
      let a = ap amounts e ∙ amounts-at xs ys (adding added) in
      let c = s.limiter.capacity in
      ground (arith, t, a, times-at xs ys (capped added c), amounts-at xs ys (capped added c))
  Step-Balance (deposits s xs ys added capacity e) v =
      let t = ap times e ∙ times-at xs ys (capped added capacity) in
      let a = ap amounts e ∙ amounts-at xs ys (capped added capacity) in ground (arith, t, a)
  Step-Balance (acquires s) v = ground arith
  Step-Balance (stores_rate s rate) v = ground arith
  Step-Balance (stores_capacity s capacity) v = ground arith
  Step-Balance (clamps s capacity) v = ground arith

  -- In every interleaving of callers and of changes of the rate, each nanosecond since the start is
  -- credited once at most, and the calls admitted are covered by the tokens of the start and by those
  -- of the credits.
  pub Reach-Balance : {s : System fl} → Reach fl start s → Balance s
  unfolding times amounts
  Reach-Balance begin = ground arith
  Reach-Balance (later r st) = Step-Balance st (Reach-Balance r)
