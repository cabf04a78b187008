-- ===== src/Analytics/AdminAdapter.antt =====
-- internal/analytics/adminadapter.go: the collector and the alert manager as the admin API uses them.
-- The orders in which maps are ranged over are arguments.
use aigateway.Prelude.{String, List}
use aigateway.Prelude.Dict.{Dict}
use aigateway.Float.{Float64}
use aigateway.Analytics.{Collector, Sorting}
use aigateway.Analytics.Collecting.{dimensions, realtime_summary}
use aigateway.Analytics.Alerts.{Alert, AlertManager, recent_alerts, acknowledge}
use aigateway.Admin.{AnalyticsProvider}

pub record AdminAdapter (F : Type 0) : Type 0 where
  pub collector : Collector F
  pub alert_manager : AlertManager F

module _ (fl : Float64) (ceil : fl.F → fl.F) (sort : Sorting) (names : List String → List String)
    (order : Dict (Alert fl.F) → Dict (Alert fl.F)) where
  open fl use {F}

  -- The summary is copied entry by entry.
  abbrev pub admin_adapter : AnalyticsProvider F
  admin_adapter = record {
    S = AdminAdapter F;
    realtime_summary = λ a. realtime_summary fl ceil sort a.collector;
    recent_alerts = λ limit a. recent_alerts order limit a.alert_manager;
    acknowledge_alert = λ id a.
        let (found, am) = acknowledge id a.alert_manager in
        (found, record a { alert_manager = am });
    dimensions = λ a. dimensions fl names a.collector;
  }
