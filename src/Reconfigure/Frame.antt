-- ===== src/Reconfigure/Frame.antt =====
-- reconfigure.go: which patterns Reconfigure changes, and when it changes none.
use r8e.Prelude.{
  ℕ, ◌≡◌, refl, ◌∙◌, ◌⊎◌, inl, inr, Bool, true, ◌||◌, Option, List, [], ◌∷◌, ◌++◌, arith,
}
use r8e.Prelude.Float.{Float}
use Prim.Native.String.{String}
use r8e.Policy.{is_set, RetryDesc}
use r8e.Breaker.State.{CircuitBreaker}
use r8e.RateLimiter.{RateLimiter}
use r8e.Bulkhead.{Bulkhead}
use r8e.Adaptive.{AdaptiveLimiter}
use r8e.Throttle.{Throttler}
use r8e.Slo.{SloGovernor}
use r8e.RetryBudget.{RetryBudget}
use r8e.ConcurrencyBudget.{ConcurrencyBudget}
use r8e.Config.{PolicyConfig}
use r8e.Estimator.{Estimator}
use r8e.TimeBudget.{TimeBudgetState}
use r8e.Reconfigure.{Policy, Action, run_actions, apply_action}
use r8e.Reconfigure.Actions.{
  ready, timeout_reconfigure_actions, time_budget_reconfigure_actions, hedge_reconfigure_actions,
  rate_limit_action, aimd_reconfigure_action, bulkhead_action,
}
use r8e.Reconfigure.Actions.Guarded.{
  adaptive_action, throttle_action, slo_with_target, slo_reconfigure_action, circuit_breaker_action,
  retry_action, retry_budget_reconfigure_action, concurrency_budget_reconfigure_action,
}

-- The parts of a policy that a configuration can change.
pub data Component : Type 0 where
  timeout adaptive_timeout time_budget hedge adaptive_hedge rate_limiter bulkhead adaptive throttler
        slo circuit_breaker retry retry_budget concurrency_budget :
      Component

module _ (fl : Float) where
  -- What a policy has of a component.
  pub data Seen : Type 0 where
    sees_timeout : Option ℕ → Seen
    sees_adaptive_timeout : Option (Estimator fl) → Seen
    sees_time_budget : Option TimeBudgetState → Seen
    sees_hedge : Option ℕ → Seen
    sees_adaptive_hedge : Option (Estimator fl) → Seen
    sees_rate_limiter : Option (RateLimiter fl) → Seen
    sees_bulkhead : Option Bulkhead → Seen
    sees_adaptive : Option (AdaptiveLimiter fl) → Seen
    sees_throttler : Option (Throttler fl) → Seen
    sees_slo : Option (SloGovernor fl) → Seen
    sees_circuit_breaker : Option (CircuitBreaker fl) → Seen
    sees_retry : Option RetryDesc → Seen
    sees_retry_budget : Option (RetryBudget fl) → Seen
    sees_concurrency_budget : Option (ConcurrencyBudget fl) → Seen

  unfoldable pub view : Component → Policy fl → Seen
  view timeout p = sees_timeout p.timeout
  view adaptive_timeout p = sees_adaptive_timeout p.adaptive_timeout
  view time_budget p = sees_time_budget p.time_budget
  view hedge p = sees_hedge p.hedge
  view adaptive_hedge p = sees_adaptive_hedge p.adaptive_hedge
  view rate_limiter p = sees_rate_limiter p.rate_limiter
  view bulkhead p = sees_bulkhead p.bulkhead
  view adaptive p = sees_adaptive p.adaptive
  view throttler p = sees_throttler p.throttler
  view slo p = sees_slo p.slo
  view circuit_breaker p = sees_circuit_breaker p.circuit_breaker
  view retry p = sees_retry p.retry
  view retry_budget p = sees_retry_budget p.retry_budget
  view concurrency_budget p = sees_concurrency_budget p.concurrency_budget

  unfoldable pub has : Policy fl → Component → Bool
  has p timeout = is_set p.timeout
  has p adaptive_timeout = is_set p.adaptive_timeout
  has p time_budget = is_set p.time_budget
  has p hedge = is_set p.hedge
  has p adaptive_hedge = is_set p.adaptive_hedge
  has p rate_limiter = is_set p.rate_limiter
  has p bulkhead = is_set p.bulkhead
  has p adaptive = is_set p.adaptive
  has p throttler = is_set p.throttler
  has p slo = is_set p.slo
  has p circuit_breaker = is_set p.circuit_breaker
  has p retry = is_set p.retry
  has p retry_budget = is_set p.retry_budget
  has p concurrency_budget = is_set p.concurrency_budget

  -- The components that a configuration asks to change.
  unfoldable pub asks : PolicyConfig fl → Component → Bool
  asks cfg timeout = is_set cfg.timeout
  asks cfg adaptive_timeout = is_set cfg.adaptive_timeout
  asks cfg time_budget =
      is_set cfg.time_budget || is_set cfg.propagate_deadline || is_set cfg.respect_inbound_deadline
  asks cfg hedge = is_set cfg.hedge
  asks cfg adaptive_hedge = is_set cfg.adaptive_hedge
  asks cfg rate_limiter = is_set cfg.rate_limit || is_set cfg.aimd
  asks cfg bulkhead = is_set cfg.bulkhead
  asks cfg adaptive = is_set cfg.adaptive_concurrency
  asks cfg throttler = is_set cfg.adaptive_throttle
  asks cfg slo = is_set cfg.slo
  asks cfg circuit_breaker = is_set cfg.circuit_breaker
  asks cfg retry = is_set cfg.retry
  asks cfg retry_budget = is_set cfg.retry_budget
  asks cfg concurrency_budget = is_set cfg.concurrency_budget

  -- Actions that keep what is there, and that change nothing but the components of a test.
  unfoldable pub Frames : List (Action fl) → (Component → Bool) → Type 0
  Frames acts f =
      (q : Policy fl) (x : Component)
      → (has (run_actions fl acts q) x ≡ has q x)
        × ((f x ≡ true) ⊎ (view x (run_actions fl acts q) ≡ view x q))

  kept :
      (b : Bool) (u v w : Seen) → (b ≡ true) ⊎ (v ≡ u) → (b ≡ true) ⊎ (w ≡ v) → (b ≡ true) ⊎ (w ≡ u)
  kept b u v w (inl t) k = inl t
  kept b u v w (inr e) (inl t) = inl t
  kept b u v w (inr e) (inr d) = inr (d ∙ e)

  module _ (parse_duration : String → Option ℕ) (p : Policy fl) (cfg : PolicyConfig fl) where
    pub timeout_reconfigure_actions-Frames :
        (acts : List (Action fl))
        → timeout_reconfigure_actions fl parse_duration p cfg ≡ ready acts
        → Frames acts (asks cfg)
    unfolding timeout_reconfigure_actions Frames has view asks run_actions apply_action
    timeout_reconfigure_actions-Frames acts e q x = ground (arith, e)

    pub time_budget_reconfigure_actions-Frames :
        (acts : List (Action fl))
        → time_budget_reconfigure_actions fl parse_duration p cfg ≡ ready acts
        → Frames acts (asks cfg)
    unfolding time_budget_reconfigure_actions Frames has view asks run_actions apply_action
    time_budget_reconfigure_actions-Frames acts e q x = ground (arith, e)

    pub hedge_reconfigure_actions-Frames :
        (acts : List (Action fl))
        → hedge_reconfigure_actions fl parse_duration p cfg ≡ ready acts
        → Frames acts (asks cfg)
    unfolding hedge_reconfigure_actions Frames has view asks run_actions apply_action
    hedge_reconfigure_actions-Frames acts e q x = ground (arith, e)

    pub rate_limit_action-Frames :
        (acts : List (Action fl))
        → rate_limit_action fl parse_duration p cfg ≡ ready acts
        → Frames acts (asks cfg)
    unfolding rate_limit_action Frames has view asks run_actions apply_action
    rate_limit_action-Frames acts e q x = ground (arith, e)

    pub aimd_reconfigure_action-Frames :
        (acts : List (Action fl))
        → aimd_reconfigure_action fl parse_duration p cfg ≡ ready acts
        → Frames acts (asks cfg)
    unfolding aimd_reconfigure_action Frames has view asks run_actions apply_action
    aimd_reconfigure_action-Frames acts e q x = ground (arith, e)

    pub bulkhead_action-Frames :
        (acts : List (Action fl))
        → bulkhead_action fl parse_duration p cfg ≡ ready acts
        → Frames acts (asks cfg)
    unfolding bulkhead_action Frames has view asks run_actions apply_action
    bulkhead_action-Frames acts e q x = ground (arith, e)

    pub adaptive_action-Frames :
        (acts : List (Action fl))
        → adaptive_action fl parse_duration p cfg ≡ ready acts
        → Frames acts (asks cfg)
    unfolding adaptive_action Frames has view asks run_actions apply_action
    adaptive_action-Frames acts e q x = ground (arith, e)

    pub throttle_action-Frames :
        (acts : List (Action fl))
        → throttle_action fl parse_duration p cfg ≡ ready acts
        → Frames acts (asks cfg)
    unfolding throttle_action Frames has view asks run_actions apply_action
    throttle_action-Frames acts e q x = ground (arith, e)

    pub slo_reconfigure_action-Frames :
        (acts : List (Action fl))
        → slo_reconfigure_action fl parse_duration p cfg ≡ ready acts
        → Frames acts (asks cfg)
    unfolding slo_reconfigure_action slo_with_target Frames has view asks run_actions apply_action
    slo_reconfigure_action-Frames acts e q x = ground (arith, e)

    pub circuit_breaker_action-Frames :
        (acts : List (Action fl))
        → circuit_breaker_action fl parse_duration p cfg ≡ ready acts
        → Frames acts (asks cfg)
    unfolding circuit_breaker_action Frames has view asks run_actions apply_action
    circuit_breaker_action-Frames acts e q x = ground (arith, e)

    pub retry_action-Frames :
        (acts : List (Action fl))
        → retry_action fl parse_duration p cfg ≡ ready acts
        → Frames acts (asks cfg)
    unfolding retry_action Frames has view asks run_actions apply_action
    retry_action-Frames acts e q x = ground (arith, e)

    pub retry_budget_reconfigure_action-Frames :
        (acts : List (Action fl))
        → retry_budget_reconfigure_action fl parse_duration p cfg ≡ ready acts
        → Frames acts (asks cfg)
    unfolding retry_budget_reconfigure_action Frames has view asks run_actions apply_action
    retry_budget_reconfigure_action-Frames acts e q x = ground (arith, e)

    pub concurrency_budget_reconfigure_action-Frames :
        (acts : List (Action fl))
        → concurrency_budget_reconfigure_action fl parse_duration p cfg ≡ ready acts
        → Frames acts (asks cfg)
    unfolding concurrency_budget_reconfigure_action Frames has view asks run_actions apply_action
    concurrency_budget_reconfigure_action-Frames acts e q x = ground (arith, e)

    run_actions-++ :
        (xs ys : List (Action fl)) (q : Policy fl)
        → run_actions fl (xs ++ ys) q ≡ run_actions fl ys (run_actions fl xs q)
    unfolding run_actions
    run_actions-++ [] ys q = refl
    run_actions-++ (a ∷ xs) ys q = run_actions-++ xs ys (apply_action fl a q)

    pub Frames-++ :
        (xs ys : List (Action fl)) (f : Component → Bool)
        → Frames xs f
        → Frames ys f
        → Frames (xs ++ ys) f
    unfolding Frames
    Frames-++ xs ys f u v q x =
        let (h1, k1) = u q x in
        let (h2, k2) = v (run_actions fl xs q) x in
        rw (run_actions-++ xs ys q)
          (h2 ∙ h1, kept (f x) (view x q) (view x (run_actions fl xs q)) _ k1 k2)
