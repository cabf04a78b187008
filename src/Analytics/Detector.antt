-- ===== src/Analytics/Detector.antt =====
-- internal/analytics/detector.go: alerts on the latest buckets of every dimension, by fixed thresholds
-- and by the distance to a baseline. Texts that are formatted are parameters, and so are the functions
-- of Go's math and the clock. Thresholds that are integers are natural numbers.
use mathlib.Core.List.{◌++◌}
use aigateway.Prelude.{
  ℕ, ◌-◌, ◌/◌, String, Bool, none, some, List, [], ◌∷◌, length, take, drop, ltb, ◌&&◌,
  if◌then◌else◌,
}
use aigateway.Float.{Float64}
use aigateway.Analytics.{BucketSummary, TimeSeries, Collector, Sorting, recent_buckets}
use aigateway.Analytics.Collecting.{get_series, dimensions}
use aigateway.Analytics.Alerts.{Alert}

module _ (F : Type 0) where
  pub record StaticThresholds : Type 0 where
    pub error_rate_max : F
    pub p95_latency_max : ℕ
    pub requests_per_minute_max : ℕ
    pub cost_per_minute_max : F

  pub record BaselineConfig : Type 0 where
    pub window : ℕ
    pub stddev_threshold : F

  pub record DetectorConfig : Type 0 where
    pub static_config : StaticThresholds
    pub baseline_config : BaselineConfig

-- What is taken from math and fmt: the texts of the identifier and of the message of an alert, from
-- its kind, dimension, metric and values.
pub record Library (fl : Float64) : Type 0 where
  pub ceil : fl.F → fl.F
  pub sub : fl.F → fl.F → fl.F
  pub sqrt : fl.F → fl.F
  pub abs : fl.F → fl.F
  pub sort : Sorting
  pub id_text : String → String → String → ℕ → String
  pub message_text : String → String → String → fl.F → fl.F → String
  pub deviation_text : String → String → fl.F → fl.F → fl.F → fl.F → String

module _ (fl : Float64) (lib : Library fl) (now : ℕ) where
  open fl use {F, of_int, add, mul, div, lt}

  abbrev pub static_alert : String → String → F → F → Alert F
  static_alert dim metric value threshold = record {
    id = lib.id_text "static" dim metric now;
    severity = "critical";
    type = "static_threshold";
    dimension = dim;
    metric = metric;
    value = value;
    threshold = threshold;
    message = lib.message_text "static" dim metric value threshold;
    state = "active";
    created_at = now;
    resolved_at = none;
  }

  -- The tests of floats and of integers: above a threshold that is set.
  abbrev pub exceeds : F → F → Bool
  exceeds value threshold = lt threshold value && lt (of_int 0) threshold

  abbrev pub exceeds_int : ℕ → ℕ → Bool
  exceeds_int value threshold = ltb threshold value && ltb 0 threshold

  abbrev pub when : {A : Type 0} → Bool → A → List A
  when b a = if b then a ∷ [] else []

  unfoldable pub check_bucket : StaticThresholds F → String → BucketSummary F → List (Alert F)
  check_bucket c dim b =
      when (exceeds b.error_rate c.error_rate_max)
        (static_alert dim "error_rate" b.error_rate c.error_rate_max)
      ++ when (exceeds_int b.p95_latency c.p95_latency_max)
          (static_alert dim "p95_latency" (of_int b.p95_latency) (of_int c.p95_latency_max))
      ++ when (exceeds_int b.requests c.requests_per_minute_max)
          (static_alert dim "request_rate" (of_int b.requests) (of_int c.requests_per_minute_max))
      ++ when (exceeds b.estimated_cost c.cost_per_minute_max)
          (static_alert dim "cost_rate" b.estimated_cost c.cost_per_minute_max)

  unfoldable pub check_static : StaticThresholds F → String → TimeSeries F → List (Alert F)
  unfolding check_bucket
  check_static c dim ts = elim (recent_buckets fl lib.ceil lib.sort 1 ts) [
    | [] ↦ []
    | b ∷ rest ↦ check_bucket c dim b
  ]

  -- The loops that add up a metric, and its square.
  unfoldable pub sum_from : F → List F → F
  sum_from acc [] = acc
  sum_from acc (v ∷ vs) = sum_from (add acc v) vs

  unfoldable pub values : (BucketSummary F → F) → List (BucketSummary F) → List F
  values extract [] = []
  values extract (b ∷ bs) = extract b ∷ values extract bs

  unfoldable pub squares : List F → List F
  squares [] = []
  squares (v ∷ vs) = mul v v ∷ squares vs

  abbrev pub mean_of : List F → F
  mean_of vs = div (sum_from (of_int 0) vs) (of_int (length vs))

  unfoldable pub stddev_of : List F → F
  unfolding squares sum_from
  stddev_of vs =
      let mean = mean_of vs in
      let variance =
        lib.sub (div (sum_from (of_int 0) (squares vs)) (of_int (length vs))) (mul mean mean) in
      lib.sqrt (if lt variance (of_int 0) then of_int 0 else variance)

  abbrev pub baseline_alert : String → String → F → F → F → F → Alert F
  baseline_alert dim metric recent mean stddev threshold = record {
    id = lib.id_text "baseline" dim metric now;
    severity = "warning";
    type = "statistical_baseline";
    dimension = dim;
    metric = metric;
    value = recent;
    threshold = add mean (mul stddev threshold);
    message = lib.deviation_text dim metric recent mean stddev threshold;
    state = "active";
    created_at = now;
    resolved_at = none;
  }

  unfoldable pub check_metric_anomaly :
      F
      → String
      → String
      → List (BucketSummary F)
      → List (BucketSummary F)
      → (BucketSummary F → F)
      → List (Alert F)
  unfolding values stddev_of
  check_metric_anomaly threshold dim metric baseline recent extract =
      let vs = values extract baseline in
      let mean = mean_of vs in
      let stddev = stddev_of vs in
      let recent_avg = mean_of (values extract recent) in
      when (lt (of_int 0) stddev && lt (mul stddev threshold) (lib.abs (lib.sub recent_avg mean)))
        (baseline_alert dim metric recent_avg mean stddev threshold)

  -- The baseline is the window without its last five buckets; an hour of buckets is needed.
  unfoldable pub check_baseline : BaselineConfig F → String → TimeSeries F → List (Alert F)
  unfolding check_metric_anomaly
  check_baseline c dim ts =
      let all = recent_buckets fl lib.ceil lib.sort (c.window / 60_000_000_000) ts in
      let baseline = take (length all - 5) all in
      let recent = drop (length all - 5) all in
      if ltb (length all) 60
      then []
      else check_metric_anomaly c.stddev_threshold dim "request_rate" baseline recent
          (λ b. of_int b.requests)
        ++ check_metric_anomaly c.stddev_threshold dim "error_rate" baseline recent
            (λ b. b.error_rate)
        ++ check_metric_anomaly c.stddev_threshold dim "p95_latency" baseline recent
            (λ b. of_int b.p95_latency)

  -- The loop of `Evaluate` over the dimensions.
  unfoldable pub evaluate_dims : DetectorConfig F → Collector F → List String → List (Alert F)
  unfolding check_static check_baseline
  evaluate_dims d c [] = []
  evaluate_dims d c (dim ∷ dims) =
      let rest = evaluate_dims d c dims in
      elim (get_series fl dim c) [
        | none ↦ rest
        | some ts ↦
            check_static d.static_config dim ts ++ check_baseline d.baseline_config dim ts ++ rest
      ]

  unfoldable pub evaluate :
      (List String → List String) → DetectorConfig F → Collector F → List (Alert F)
  unfolding evaluate_dims
  evaluate order d c = evaluate_dims d c (dimensions fl order c)
