-- ===== src/Bulkhead/Options.antt =====
-- bulkhead.go: bulkheadConfig and the options that set it. Durations are natural numbers of
-- nanoseconds.
use r8e.Prelude.{ℕ, ◌&&◌, List, [], ◌∷◌, leb, ltb, if◌then◌else◌}

pub record BulkheadConfig : Type 0 where
  pub max_wait : ℕ
  pub max_queue : ℕ
  pub codel_target : ℕ
  pub codel_interval : ℕ

pub data BulkheadOption : Type 0 where
  bulkhead_max_wait bulkhead_queue_depth : ℕ → BulkheadOption
  bulkhead_co_del : ℕ → ℕ → BulkheadOption

unfoldable pub apply_option : BulkheadOption → BulkheadConfig → BulkheadConfig
apply_option (bulkhead_max_wait d) c = record c { max_wait = d }
apply_option (bulkhead_queue_depth n) c = if leb 1 n then record c { max_queue = n } else c
apply_option (bulkhead_co_del target interval) c =
    if ltb 0 target && ltb 0 interval
    then record c { codel_target = target; codel_interval = interval }
    else c

unfoldable pub apply_options : List BulkheadOption → BulkheadConfig → BulkheadConfig
unfolding apply_option
apply_options [] c = c
apply_options (o ∷ os) c = apply_options os (apply_option o c)
