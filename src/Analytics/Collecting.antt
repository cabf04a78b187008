-- ===== src/Analytics/Collecting.antt =====
-- internal/analytics/collector.go: the collector, a time series for every dimension of a request.
use Prim.Native.String.{◌++◌}
use aigateway.Prelude.{ℕ, ◌*◌, String, Option, none, some, List, [], ◌∷◌, ◌==◌, if◌then◌else◌, map}
use aigateway.Prelude.Dict.{Dict, lookup, insert}
use aigateway.Float.{Float64}
use aigateway.Analytics.{
  DataPoint, BucketSummary, TimeSeries, Collector, Sorting, new_time_series, record_point,
  recent_buckets,
}

module _ (fl : Float64) where
  open fl use {F}

  unfoldable pub new_collector : ℕ → Collector F
  new_collector retention_hours = record { series = []; retention = retention_hours * 60 }

  abbrev pub series_or_new : ℕ → Option (TimeSeries F) → TimeSeries F
  series_or_new retention none = new_time_series fl retention
  series_or_new retention (some ts) = ts

  -- A dimension's series is made if it is missing, and takes the point.
  unfoldable pub record_in : DataPoint F → Collector F → String → Collector F
  record_in dp c dim = record c {
    series =
        insert dim (record_point fl dp (series_or_new c.retention (lookup dim c.series))) c.series;
  }

  unfoldable pub dims_of : DataPoint F → List String
  dims_of dp =
      ("tenant:" ++ dp.tenant_id)
      ∷ ("model:" ++ dp.model)
      ∷ ("provider:" ++ dp.provider)
      ∷ "global"
      ∷ []

  unfoldable pub record_in_all : DataPoint F → List String → Collector F → Collector F
  unfolding record_in
  record_in_all dp [] c = c
  record_in_all dp (dim ∷ dims) c = record_in_all dp dims (record_in dp c dim)

  -- Collector.Record; a point with no time has that of the clock.
  unfoldable pub record_data : ℕ → DataPoint F → Collector F → Collector F
  unfolding dims_of record_in_all
  record_data now dp c =
      let stamped : DataPoint F =
        (if dp.timestamp == 0 then (record dp { timestamp = now }) else dp) in
      record_in_all stamped (dims_of stamped) c

  unfoldable pub get_series : String → Collector F → Option (TimeSeries F)
  get_series dimension c = lookup dimension c.series

  abbrev keys : {V : Type 0} → Dict V → List String
  keys m = map (λ e. e.0) m

  -- The keys of the map, in the order of a range.
  unfoldable pub dimensions : (List String → List String) → Collector F → List String
  dimensions order c = order (keys c.series)

  module _ (ceil : F → F) (sort : Sorting) where
    unfoldable pub realtime_summary : Collector F → Dict (List (BucketSummary F))
    realtime_summary c = map (λ e. (e.0, recent_buckets fl ceil sort 5 e.1)) c.series
