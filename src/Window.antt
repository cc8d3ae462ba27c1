-- ===== src/Window.antt =====
-- throttle.go and slo.go: the sliding window of ten buckets that both keep. A bucket counts the events
-- of one epoch, a span of `bucket_nanos`: all of them in `total`, some of them in `marked`. The array
-- of buckets is a function of the index; times are not negative, so neither is an index.
pub mod Log
use r8e.Prelude.{
  ℕ, zero, suc, ◌+◌, ◌-◌, ◌*◌, ◌/◌, ◌%◌, Bool, true, false, not, ◌&&◌, ◌||◌, List, [], ◌∷◌, ltb,
  leb, ◌==◌, if◌then◌else◌,
}

-- throttleBuckets and sloBuckets
abbrev pub bucket_count : ℕ
bucket_count = 10

pub record Bucket : Type 0 where
  pub epoch : ℕ
  pub total : ℕ
  pub marked : ℕ

abbrev pub Buckets : Type 0
Buckets = ℕ → Bucket

unfoldable pub no_buckets : Buckets
no_buckets i = record { epoch = 0; total = 0; marked = 0 }

-- bucketNanosFor and sloBucketNanos
unfoldable pub bucket_nanos_for : ℕ → ℕ
bucket_nanos_for window = let nanos = window / bucket_count in if ltb nanos 1 then 1 else nanos

unfoldable pub epoch_of : ℕ → ℕ → ℕ
epoch_of bucket_nanos now = now / bucket_nanos

-- The bucket of an epoch, reset if it holds another one.
unfoldable pub bucket_for : Buckets → ℕ → Bucket
bucket_for buckets current =
    let bucket = buckets (current % bucket_count) in
    if bucket.epoch == current then bucket else record { epoch = current; total = 0; marked = 0 }

-- An update of the bucket of an epoch.
unfoldable pub observe : Buckets → ℕ → ℕ → ℕ → Buckets
unfolding bucket_for
observe buckets current total marked i =
    let bucket = bucket_for buckets current in
    if i == current % bucket_count
    then record bucket { total = bucket.total + total; marked = bucket.marked + marked }
    else buckets i

-- Whether a bucket is in the window that ends with an epoch.
unfoldable pub live : ℕ → ℕ → Bool
live epoch current = not (ltb (epoch + bucket_count) (current + 1) || ltb current epoch)

abbrev pub amount : Bool → ℕ → ℕ → ℕ
amount true total marked = total
amount false total marked = marked

-- The loop of windowSums and sums, over the first `n` buckets.
unfoldable pub sum_to : Bool → ℕ → Buckets → ℕ → ℕ
unfolding live
sum_to all zero buckets current = 0
sum_to all (suc n) buckets current =
    let bucket = buckets n in
    let before = sum_to all n buckets current in
    if live bucket.epoch current then before + amount all bucket.total bucket.marked else before

unfoldable pub sums : Buckets → ℕ → ℕ × ℕ
unfolding sum_to
sums buckets current =
    (sum_to true bucket_count buckets current, sum_to false bucket_count buckets current)
