-- ===== src/Tests/Config.antt =====
-- policy.go, config.go and reconfigure.go at concrete inputs: middlewares are named by their patterns, a
-- call is the list of those that it passes.
use r8e.Prelude.{
  ℕ, ◌*◌, ◌^◌, ◌≡◌, refl, true, false, Option, none, some, not, ◌&&◌, ◌⊎◌, List, [], ◌∷◌,
  if◌then◌else◌,
}
use r8e.Prelude.Thousandths.{thousandths}
use Prim.Native.String.{String}
use text.Mathlib.Text.{◌==◌}
use r8e.Chain.{Middleware, chain, sort_patterns}
use r8e.Backoff.{constant_backoff}
use r8e.Policy.{
  Handles, PolicySetup, PolicyOption, Pattern, keep, entries, new_policy, constructs, apply_options,
  unset, check_setup_invariants, with_timeout, with_retry, with_bulkhead, with_recover,
}
use r8e.Policy.Layers.{nested, outermost_first}
use r8e.Config.{PolicyConfig, ConfigError, valid, refused}
use r8e.Config.Build.{build_options}
use r8e.Bulkhead.Options.{bulkhead_max_wait}
use r8e.Config.Patterns.{duration, given_duration, adaptive_from_config}
use r8e.Config.Nested.{bulkhead_options_from_config, has_any_bulkhead_wait_setting}
use r8e.Config.Installs.{configured, build_options-nested}
use r8e.Bulkhead.{new_bulkhead}
use r8e.Reconfigure.{Policy}
use r8e.Reconfigure.Actions.{ReconfigureError}
use r8e.Reconfigure.Actions.Guarded.{reconfigure}
use r8e.Reconfigure.Frame
use r8e.Reconfigure.Frame.{asks, has, view}
use r8e.Reconfigure.Outcome.{reconfigure_cases}
use r8e.Config.Unused.{orphaned, build_options_of_orphaned}

abbrev handles : Handles
handles = record {
  Clock = Unit;
  Hooks = Unit;
  RegistryRef = Unit;
  KeyFn = ℕ;
  AnyCache = ℕ;
  Value = ℕ;
  FallbackFn = ℕ;
  ChaosStrategy = ℕ;
  HealthReporter = ℕ;
}

abbrev traced : PolicySetup thousandths handles → Pattern → Middleware (List Pattern)
traced s p next = p ∷ next

abbrev opts : List (PolicyOption thousandths handles)
opts = with_retry 3 (constant_backoff 5) [] ∷ with_recover ∷ with_timeout 100 [] ∷ []

abbrev setup : PolicySetup thousandths handles
setup = apply_options thousandths handles opts (unset thousandths handles)

abbrev traces : Middleware (List Pattern)
traces = chain (sort_patterns (entries thousandths handles traced setup))

opts_construct : new_policy thousandths handles traced opts ≡ constructs traces
unfolding new_policy check_setup_invariants apply_options unset
opts_construct = refl

abbrev parse_duration : String → Option ℕ
parse_duration text =
    if text == "100ms" then some (100 * 10 ^ 6) else if text == "1s" then some (10 ^ 9) else none

abbrev plain : PolicyConfig thousandths
plain = record {
  circuit_breaker = none;
  retry = none;
  timeout = some "1s";
  adaptive_timeout = none;
  time_budget = none;
  propagate_deadline = none;
  respect_inbound_deadline = some false;
  hedge = none;
  adaptive_hedge = none;
  rate_limit = none;
  aimd = none;
  bulkhead = some 4;
  bulkhead_max_wait = some "100ms";
  bulkhead_queue_depth = none;
  bulkhead_codel_target = none;
  bulkhead_codel_interval = none;
  adaptive_concurrency = none;
  adaptive_throttle = none;
  slo = none;
  retry_budget = none;
  concurrency_budget = none;
}

build_options_of_orphaned_example :
    (e : ConfigError) × (build_options thousandths handles parse_duration
        (record plain { bulkhead = none })
      ≡ refused e)
unfolding orphaned
build_options_of_orphaned_example =
    build_options_of_orphaned thousandths handles parse_duration (record plain { bulkhead = none })
      refl

abbrev plain_opts : List (PolicyOption thousandths handles)
plain_opts = with_timeout (10 ^ 9) [] ∷ with_bulkhead 4 (bulkhead_max_wait (10 ^ 8) ∷ []) ∷ []

plain_accepted : build_options thousandths handles parse_duration plain ≡ valid plain_opts
unfolding build_options duration adaptive_from_config bulkhead_options_from_config given_duration
    has_any_bulkhead_wait_setting
plain_accepted = refl

build_options-nested_example :
    (m : Middleware (List Pattern)) × (new_policy thousandths handles traced plain_opts
      ≡ constructs m)
    × (m []
        ≡ nested thousandths handles traced
            (apply_options thousandths handles plain_opts (unset thousandths handles))
            (keep (configured thousandths handles parse_duration plain) outermost_first)
            [])
build_options-nested_example =
    build_options-nested thousandths handles parse_duration traced plain plain_opts []
      plain_accepted

-- A policy with a timeout, of which the configuration changes the timeout.
abbrev live : Policy thousandths
live = record {
  timeout = some 100;
  adaptive_timeout = none;
  time_budget = none;
  hedge = none;
  adaptive_hedge = none;
  rate_limiter = none;
  bulkhead = some (new_bulkhead 3 []);
  adaptive = none;
  throttler = none;
  slo = none;
  circuit_breaker = none;
  retry = none;
  retry_budget = none;
  concurrency_budget = none;
}

reconfigure_cases_example :
    let r = reconfigure thousandths parse_duration live plain in
    ((e : ReconfigureError) × (r ≡ (live, some e)))
    ⊎ ((r.1 ≡ none)
        × (asks thousandths plain Frame.bulkhead && not (has thousandths live Frame.bulkhead)
            ≡ false)
        × (has thousandths r.0 Frame.bulkhead ≡ has thousandths live Frame.bulkhead)
        × ((asks thousandths plain Frame.bulkhead ≡ true)
            ⊎ (view thousandths Frame.bulkhead r.0 ≡ view thousandths Frame.bulkhead live)))
reconfigure_cases_example = reconfigure_cases thousandths parse_duration live plain Frame.bulkhead
