-- ===== src/Latency.antt =====
-- latency.go: a sliding window of ten histograms of latencies. The arrays are functions of the index; the
-- counts of a bucket are none before its first sample. Durations and times are not negative.
pub mod Samples
pub mod Quantile
use r8e.Prelude.{
  ℕ, zero, suc, ◌+◌, ◌-◌, ◌*◌, ◌/◌, ◌%◌, ◌^◌, Bool, true, false, not, ◌&&◌, ◌||◌, Option, none,
  some, ltb, leb, ◌==◌, if◌then◌else◌,
}
use r8e.Prelude.Float.{Float}

-- latencyWindowBuckets, minLatencyNanos and maxLatencyNanos
abbrev pub latency_window_buckets : ℕ
latency_window_buckets = 10

abbrev pub min_latency_nanos : ℕ
min_latency_nanos = 1000

abbrev max_latency_nanos : ℕ
max_latency_nanos = 120 * 10 ^ 9

abbrev pub Counts : Type 0
Counts = ℕ → ℕ

pub record LatencyBucket : Type 0 where
  pub counts : Option Counts
  pub epoch : ℕ
  pub total : ℕ

abbrev pub no_counts : Counts
no_counts j = 0

abbrev pub counts_of : Option Counts → Counts
counts_of none = no_counts
counts_of (some counts) = counts

-- The switch of bucketFor: the bucket is made, or reset if it holds another epoch.
unfoldable pub held_for : LatencyBucket → ℕ → LatencyBucket
held_for bucket epoch =
    let fresh : LatencyBucket = record { counts = some no_counts; epoch = epoch; total = 0 } in
    elim bucket.counts [
      | none ↦ fresh
      | some counts ↦ if bucket.epoch == epoch then bucket else fresh
    ]

unfoldable pub bucket_for : (ℕ → LatencyBucket) → ℕ → LatencyBucket
unfolding held_for
bucket_for buckets epoch = held_for (buckets (epoch % latency_window_buckets)) epoch

abbrev pub counted : LatencyBucket → ℕ → LatencyBucket
counted bucket idx = record bucket {
  counts = some (λ j. counts_of bucket.counts j + (if j == idx then 1 else 0));
  total = bucket.total + 1;
}

unfoldable pub is_live : LatencyBucket → ℕ → Bool
is_live bucket current = elim bucket.counts [
  | none ↦ false
  | some counts ↦
      ltb 0 bucket.total
      && leb (current + 1) (bucket.epoch + latency_window_buckets)
      && leb bucket.epoch current
]

-- The loop of merge over the first `n` buckets: the merged count of an index, and the total.
unfoldable pub merged_to : ℕ → (ℕ → LatencyBucket) → ℕ → Counts
unfolding is_live
merged_to zero buckets current j = 0
merged_to (suc n) buckets current j =
    let bucket = buckets n in
    let before = merged_to n buckets current j in
    if is_live bucket current then before + counts_of bucket.counts j else before

unfoldable pub total_to : ℕ → (ℕ → LatencyBucket) → ℕ → ℕ
unfolding is_live
total_to zero buckets current = 0
total_to (suc n) buckets current =
    let bucket = buckets n in
    let before = total_to n buckets current in
    if is_live bucket current then before + bucket.total else before

module _ (fl : Float) where
  open fl use {Carrier, le, of_int, to_int, add, sub, mul, div, pow, log, ceil}

  pub record LatencyWindow : Type 0 where
    pub buckets : ℕ → LatencyBucket
    pub gamma : Carrier
    pub log_gamma : Carrier
    pub bucket_nanos : ℕ
    pub floor_raw : ℕ
    pub size : ℕ

  raw_index : Carrier → ℕ → ℕ
  raw_index log_gamma nanos = to_int (ceil (div (log (of_int nanos)) log_gamma))

  unfoldable pub new_latency_window : LatencyWindow
  unfolding raw_index
  new_latency_window =
      -- (1 + 0.02) / (1 - 0.02), a constant
      let gamma = div (of_int 102) (of_int 98) in
      let log_gamma = log gamma in
      let floor_raw = to_int (ceil (div (log (of_int min_latency_nanos)) log_gamma)) in
      let ceil_raw = to_int (ceil (div (log (of_int max_latency_nanos)) log_gamma)) in
      record {
        buckets = λ i. record { counts = none; epoch = 0; total = 0 };
        gamma = gamma;
        log_gamma = log_gamma;
        bucket_nanos = 10 * 10 ^ 9 / latency_window_buckets;
        floor_raw = floor_raw;
        size = ceil_raw - floor_raw + 1;
      }

  -- A latency above the least one has a raw index of floor_raw at least, as the logarithm is monotone.
  unfoldable pub index : LatencyWindow → ℕ → ℕ
  unfolding raw_index
  index w nanos =
      let idx = raw_index w.log_gamma nanos - w.floor_raw in
      if leb nanos min_latency_nanos then 0 else if leb w.size idx then w.size - 1 else idx

  unfoldable pub value_at : LatencyWindow → ℕ → ℕ
  value_at w idx =
      let raw = of_int (w.floor_raw + idx) in
      to_int (div (mul (of_int 2) (pow w.gamma raw)) (add w.gamma (of_int 1)))

  unfoldable pub epoch_of : LatencyWindow → ℕ → ℕ
  epoch_of w now = now / w.bucket_nanos

  unfoldable pub observe : LatencyWindow → ℕ → ℕ → LatencyWindow
  unfolding index epoch_of bucket_for
  observe w now nanos =
      let epoch = epoch_of w now in
      let bucket = counted (bucket_for w.buckets epoch) (index w nanos) in
      record w {
        buckets = λ i. if i == epoch % latency_window_buckets then bucket else w.buckets i;
      }

  unfoldable pub merge : LatencyWindow → ℕ → Counts × ℕ
  unfolding merged_to total_to epoch_of
  merge w now =
      let current = epoch_of w now in
      (
        merged_to latency_window_buckets w.buckets current,
        total_to latency_window_buckets w.buckets current,
      )

  -- The loop of quantile, with the number of indexes that are left, the index and the count before it.
  unfoldable pub rank_from : Counts → Carrier → ℕ → ℕ → ℕ → Option ℕ
  rank_from merged target zero i cum = none
  rank_from merged target (suc left) i cum =
      let now = cum + merged i in
      let rest = rank_from merged target left (i + 1) now in
      if le target (of_int now) then some i else rest

  unfoldable pub quantile : LatencyWindow → Counts → ℕ → Carrier → ℕ
  unfolding rank_from value_at
  quantile w merged total q = elim (rank_from merged (mul q (of_int total)) w.size 0 0) [
    | some i ↦ value_at w i
    | none ↦ value_at w (w.size - 1)
  ]

  unfoldable pub quantile_snapshot : LatencyWindow → ℕ → Carrier → ℕ × ℕ
  unfolding merge quantile
  quantile_snapshot w now q =
      let (merged, total) = merge w now in
      if total == 0 then (0, 0) else (quantile w merged total q, total)

  pub record LatencySnapshot : Type 0 where
    pub p50 : ℕ
    pub p95 : ℕ
    pub p99 : ℕ
    pub samples : ℕ

  unfoldable pub snapshot : LatencyWindow → ℕ → LatencySnapshot
  unfolding merge quantile
  snapshot w now =
      let (merged, total) = merge w now in
      if total == 0 then record { p50 = 0; p95 = 0; p99 = 0; samples = 0 } else record {
        p50 = quantile w merged total (div (of_int 50) (of_int 100));
        p95 = quantile w merged total (div (of_int 95) (of_int 100));
        p99 = quantile w merged total (div (of_int 99) (of_int 100));
        samples = total;
      }
