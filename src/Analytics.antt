-- ===== src/Analytics.antt =====
-- internal/analytics/collector.go: metrics by minute in ring buffers, one for every dimension. A time
-- is in nanoseconds since Go's zero time; latencies, tokens and status codes are natural numbers.
-- An index out of range, which panics, is met only with a retention of 0 minutes.
pub mod AdminAdapter
pub mod Collecting
pub mod Detector
pub mod Alerts
pub mod Series
mod Tests
use Prim.Native.String.{◌++◌}
use mathlib.Core.List.{◌++◌ as append}
use aigateway.Prelude.{
  ℕ, zero, suc, ◌+◌, ◌-◌, ◌*◌, ◌%◌, String, Bool, true, false, Option, none, some, List, [], ◌∷◌,
  length, get_or, set, replicate, ltb, leb, ◌==◌, if◌then◌else◌, map,
}
use aigateway.Prelude.Dict.{Dict, lookup, insert}
use aigateway.Float.{Float64}

module _ (F : Type 0) where
  pub record DataPoint : Type 0 where
    pub tenant_id : String
    pub model : String
    pub provider : String
    pub status_code : ℕ
    pub latency_ms : ℕ
    pub tokens : ℕ
    pub estimated_cost : F
    pub timestamp : ℕ

  pub record MetricBucket : Type 0 where
    pub timestamp : ℕ
    pub requests : ℕ
    pub errors : ℕ
    pub latencies : List ℕ
    pub tokens : ℕ
    pub estimated_cost : F

  pub record BucketSummary : Type 0 where
    pub timestamp : ℕ
    pub requests : ℕ
    pub errors : ℕ
    pub error_rate : F
    pub p50_latency : ℕ
    pub p95_latency : ℕ
    pub p99_latency : ℕ
    pub tokens : ℕ
    pub estimated_cost : F

  pub record TimeSeries : Type 0 where
    pub buckets : List MetricBucket
    pub size : ℕ
    pub pos : ℕ
    pub count : ℕ

  pub record Collector : Type 0 where
    pub series : Dict TimeSeries
    pub retention : ℕ

-- sort.Slice of numbers by `<`
pub record Sorting : Type 0 where
  pub sorted : List ℕ → List ℕ

unfoldable pub bool_to_int64 : Bool → ℕ
bool_to_int64 true = 1
bool_to_int64 false = 0

-- Timestamp.Truncate(time.Minute)
abbrev pub truncate_minute : ℕ → ℕ
truncate_minute t = t - t % 60_000_000_000

module _ (fl : Float64) where
  open fl use {F, of_int, to_int, add, mul, div}

  abbrev pub no_bucket : MetricBucket F
  no_bucket = record {
    timestamp = 0;
    requests = 0;
    errors = 0;
    latencies = [];
    tokens = 0;
    estimated_cost = of_int 0;
  }

  unfoldable pub new_time_series : ℕ → TimeSeries F
  new_time_series retention_minutes = record {
    buckets = replicate retention_minutes no_bucket;
    size = retention_minutes;
    pos = 0;
    count = 0;
  }

  -- The bucket of the current minute, with one more request.
  unfoldable pub add_to_bucket : DataPoint F → MetricBucket F → MetricBucket F
  add_to_bucket dp b = record b {
    requests = b.requests + 1;
    errors = b.errors + (if leb 500 dp.status_code then 1 else 0);
    latencies = append b.latencies (dp.latency_ms ∷ []);
    tokens = b.tokens + dp.tokens;
    estimated_cost = add b.estimated_cost dp.estimated_cost;
  }

  unfoldable pub bucket_of : DataPoint F → MetricBucket F
  unfolding bool_to_int64
  bucket_of dp = record {
    timestamp = truncate_minute dp.timestamp;
    requests = 1;
    errors = bool_to_int64 (leb 500 dp.status_code);
    latencies = dp.latency_ms ∷ [];
    tokens = dp.tokens;
    estimated_cost = dp.estimated_cost;
  }

  abbrev pub current_index : TimeSeries F → ℕ
  current_index ts = (ts.pos + ts.size - 1) % ts.size

  -- Whether the latest bucket is of the point's minute.
  abbrev pub is_current : DataPoint F → TimeSeries F → Bool
  is_current dp ts =
      if ltb 0 ts.count
      then (get_or ts.buckets (current_index ts) no_bucket).timestamp
        == truncate_minute dp.timestamp
      else false

  -- TimeSeries.Record
  unfoldable pub record_point : DataPoint F → TimeSeries F → TimeSeries F
  unfolding add_to_bucket bucket_of
  record_point dp ts =
      if is_current dp ts
      then (record ts {
        buckets =
            set ts.buckets (current_index ts)
              (add_to_bucket dp (get_or ts.buckets (current_index ts) no_bucket));
      })
      else (record ts {
        buckets = set ts.buckets ts.pos (bucket_of dp);
        pos = (ts.pos + 1) % ts.size;
        count = if ltb ts.count ts.size then ts.count + 1 else ts.count;
      })

  module _ (ceil : F → F) (sort : Sorting) where
    unfoldable pub percentile : List ℕ → ℕ → ℕ
    percentile [] p = 0
    percentile (x ∷ xs) p =
        let idx =
          to_int (ceil (mul (div (of_int p) (of_int 100)) (of_int (length (x ∷ xs))))) - 1 in
        get_or (x ∷ xs) (if leb (length (x ∷ xs)) idx then length (x ∷ xs) - 1 else idx) 0

    unfoldable pub summarize : MetricBucket F → BucketSummary F
    unfolding percentile
    summarize b =
        let sorted = sort.sorted b.latencies in
        record {
          timestamp = b.timestamp;
          requests = b.requests;
          errors = b.errors;
          error_rate =
              if ltb 0 b.requests
              then mul (div (of_int b.errors) (of_int b.requests)) (of_int 100)
              else of_int 0;
          p50_latency = percentile sorted 50;
          p95_latency = percentile sorted 95;
          p99_latency = percentile sorted 99;
          tokens = b.tokens;
          estimated_cost = b.estimated_cost;
        }

    -- The loop of `RecentBuckets`, with `left` buckets to go.
    unfoldable pub buckets_from : TimeSeries F → ℕ → List (BucketSummary F)
    unfolding summarize
    buckets_from ts zero = []
    buckets_from ts (suc left) =
        summarize (get_or ts.buckets ((ts.pos + ts.size - suc left) % ts.size) no_bucket)
        ∷ buckets_from ts left

    unfoldable pub recent_buckets : ℕ → TimeSeries F → List (BucketSummary F)
    unfolding buckets_from
    recent_buckets n ts = buckets_from ts (if ltb ts.count n then ts.count else n)

    unfoldable pub all_buckets : TimeSeries F → List (BucketSummary F)
    unfolding recent_buckets
    all_buckets ts = recent_buckets ts.count ts
