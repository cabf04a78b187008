-- ===== src/Admin/Handlers.antt =====
-- internal/admin/admin.go: the handlers. The decoding of a body, the parsing of a duration and the
-- comparison that ignores case are the standard library's. A handler that panics leaves the state as
-- the manager left it.
use aigateway.Prelude.{ℕ, String, Bool, Option, none, some, List, [], ◌∷◌, map, if◌then◌else◌}
use aigateway.Prelude.Results.{Result, ok, err, panics}
use Prim.Native.String.{◌++◌}
use aigateway.RequestLog.{recent, recent_violations}
use aigateway.Cache.{stats, CacheStats}
use aigateway.Config.Types.{RouteConfig}
use aigateway.Rollout.Manager.{Request}
use aigateway.Admin.{
  AnalyticsProvider, BudgetProvider, RolloutManager, Server, Answer, Body, json, health, status_ok,
  dashboard, error_text, usage, providers, tenants, policies, requests, cache_stats, no_rollouts,
  rollouts, budgets, analytics, realtime, alerts, provider_info, tenant_info, policy_infos,
}

-- createRolloutRequest
pub record CreateRolloutRequest (F : Type 0) : Type 0 where
  pub route_model : String
  pub canary_provider : String
  pub stages : List ℕ
  pub observation_window : String
  pub error_threshold : F
  pub latency_p95_threshold : ℕ

pub record AdminLibrary (F : Type 0) : Type 0 where
  pub decode : Option (List ℕ) → Result (CreateRolloutRequest F)
  pub parse_duration : String → Result ℕ
  pub equal_fold : String → String → Bool
  -- what a registered provider says of itself
  pub healthy : String → Bool
  -- the content type of the page of metrics
  pub metrics_type : String

module _ {F J : Type 0} (rm : RolloutManager F J) (ap : AnalyticsProvider F) (bp : BudgetProvider F)
    (lib : AdminLibrary F) where
  -- Handlers that only read.
  abbrev Reading : Type 0
  Reading = Server rm ap bp → Answer F J

  unfoldable pub health_handler : Reading
  health_handler s = json 200 health

  unfoldable pub usage_handler : Reading
  usage_handler s = json 200 (usage s.tracker)

  unfoldable pub providers_handler : Reading
  unfolding provider_info
  providers_handler s =
      json 200 (providers (map (provider_info lib.healthy s.registry) s.cfg.providers))

  unfoldable pub tenants_handler : Reading
  unfolding tenant_info
  tenants_handler s = json 200 (tenants (map tenant_info s.cfg.tenants))

  unfoldable pub policies_handler : Reading
  unfolding policy_infos
  policies_handler s = json 200 (policies (policy_infos s.cfg.policies))

  -- ServeHTTP of the request log.
  unfoldable pub requests_handler : Reading
  requests_handler s = json 200 (requests (recent 50 s.request_log))

  unfoldable pub violations_handler : Reading
  violations_handler s = json 200 (requests (recent_violations 100 s.request_log))

  abbrev no_stats : CacheStats
  no_stats = record { hits = 0; misses = 0; size = 0; max_size = 0; evictions = 0 }

  unfoldable pub cache_handler : Reading
  cache_handler s = elim s.cache [
    | some c ↦ json 200 (cache_stats (stats c))
    | none ↦ json 200 (cache_stats no_stats)
  ]

  unfoldable pub dashboard_handler : Reading
  dashboard_handler s = record {
    status = 200;
    content_type = "text/html; charset=utf-8";
    body = dashboard;
  }

  -- rolloutUnavailable and analyticsUnavailable
  abbrev unavailable : String → Answer F J
  unavailable message = json 503 (error_text message)

  abbrev pub no_rollout_manager : Answer F J
  no_rollout_manager = unavailable "rollout manager not available"

  abbrev pub no_analytics : Answer F J
  no_analytics = unavailable "analytics not enabled"

  unfoldable pub budgets_handler : Reading
  budgets_handler s = elim s.budget_provider [
    | none ↦ json 200 (budgets [] [])
    | some b ↦ json 200 (budgets (bp.all_statuses b) (bp.forecast_all b))
  ]

  unfoldable pub analytics_handler : Reading
  analytics_handler s = elim s.analytics_provider [
    | none ↦ no_analytics
    | some a ↦ json 200 (analytics (ap.dimensions a) (ap.realtime_summary a))
  ]

  unfoldable pub analytics_realtime_handler : Reading
  analytics_realtime_handler s = elim s.analytics_provider [
    | none ↦ no_analytics
    | some a ↦ json 200 (realtime (ap.realtime_summary a))
  ]

  unfoldable pub alerts_handler : Reading
  alerts_handler s = elim s.analytics_provider [
    | none ↦ no_analytics
    | some a ↦ json 200 (alerts (ap.recent_alerts 100 a))
  ]

  -- A manager's error is answered with its text and a status.
  abbrev pub answered_with : {A : Type 0} → ℕ → ℕ → (A → Body F J) → Result A → Result (Answer F J)
  answered_with good bad show (ok a) = ok (json good (show a))
  answered_with good bad show (err e) = ok (json bad (error_text e))
  answered_with good bad show panics = panics

  abbrev listed : Option J → Body F J
  listed none = no_rollouts
  listed (some j) = rollouts j

  unfoldable pub rollouts_list_handler : Server rm ap bp → Result (Answer F J)
  rollouts_list_handler s = elim s.rollout_mgr [
    | none ↦ ok no_rollout_manager
    | some m ↦ answered_with 200 500 listed (rm.list_rollouts m)
  ]

  unfoldable pub rollout_get_handler : String → Server rm ap bp → Result (Answer F J)
  rollout_get_handler id s = elim s.rollout_mgr [
    | none ↦ ok no_rollout_manager
    | some m ↦ answered_with 200 404 rollouts (rm.get_rollout_with_metrics id m)
  ]

  -- Handlers that may change the server.
  abbrev Writing : Type 0
  Writing = Server rm ap bp → Result (Answer F J) × Server rm ap bp

  abbrev pub with_rollouts : rm.S → Server rm ap bp → Server rm ap bp
  with_rollouts m s = record s { rollout_mgr = some m }

  -- The providers of the first route whose pattern is the model, but for case.
  unfoldable pub baseline_providers : String → List (RouteConfig F) → List String
  baseline_providers model [] = []
  baseline_providers model (route ∷ routes) =
      let rest = baseline_providers model routes in
      if lib.equal_fold route.match.model model then route.providers else rest

  abbrev pub request_of : CreateRolloutRequest F → ℕ → List String → Request F
  request_of req obs_window baseline = record {
    route_model = req.route_model;
    baseline_providers = baseline;
    canary_provider = req.canary_provider;
    stages = req.stages;
    observation_window = obs_window;
    error_threshold = req.error_threshold;
    latency_p95_threshold = req.latency_p95_threshold;
  }

  abbrev bad_request : String → Result (Answer F J)
  bad_request message = ok (json 400 (error_text message))

  -- With the duration parsed.
  abbrev pub create_parsed :
      CreateRolloutRequest F
      → rm.S
      → Server rm ap bp
      → Result ℕ
      → Result (Answer F J) × Server rm ap bp
  create_parsed req m s (err e) = (bad_request ("invalid observation_window: " ++ e), s)
  create_parsed req m s panics = (panics, s)
  create_parsed req m s (ok obs_window) =
      let q = request_of req obs_window (baseline_providers req.route_model s.cfg.routes) in
      (
        answered_with 201 409 rollouts (rm.create_rollout q m).0,
        with_rollouts (rm.create_rollout q m).1 s,
      )

  -- With the body decoded.
  abbrev pub create_decoded :
      rm.S
      → Server rm ap bp
      → Result (CreateRolloutRequest F)
      → Result (Answer F J) × Server rm ap bp
  create_decoded m s (err e) = (bad_request ("invalid JSON: " ++ e), s)
  create_decoded m s panics = (panics, s)
  create_decoded m s (ok req) = create_parsed req m s (lib.parse_duration req.observation_window)

  unfoldable pub rollouts_create_handler : Option (List ℕ) → Writing
  unfolding baseline_providers
  rollouts_create_handler body s = elim s.rollout_mgr [
    | none ↦ (ok no_rollout_manager, s)
    | some m ↦ create_decoded m s (lib.decode body)
  ]

  -- The last lines of the handlers that pause, resume and roll back.
  abbrev pub changed :
      Server rm ap bp → Result (Unit {0}) × rm.S → Result (Answer F J) × Server rm ap bp
  changed s (done, m') = (answered_with 200 400 (λ _. status_ok) done, with_rollouts m' s)

  unfoldable pub change_rollout : (rm.S → Result (Unit {0}) × rm.S) → Writing
  change_rollout change s = elim s.rollout_mgr [
    | none ↦ (ok no_rollout_manager, s)
    | some m ↦ changed s (change m)
  ]

  unfoldable pub rollout_pause_handler : String → Writing
  unfolding change_rollout
  rollout_pause_handler id s = change_rollout (rm.pause_rollout id) s

  unfoldable pub rollout_resume_handler : String → Writing
  unfolding change_rollout
  rollout_resume_handler id s = change_rollout (rm.resume_rollout id) s

  unfoldable pub rollout_rollback_handler : String → Writing
  unfolding change_rollout
  rollout_rollback_handler id s = change_rollout (rm.rollback_rollout id) s

  abbrev pub acknowledged : Server rm ap bp → Bool × ap.S → Result (Answer F J) × Server rm ap bp
  acknowledged s (found, a') = (
    ok (if found then json 200 status_ok else json 404 (error_text "alert not found")),
    record s { analytics_provider = some a' },
  )

  unfoldable pub alert_acknowledge_handler : String → Writing
  alert_acknowledge_handler id s = elim s.analytics_provider [
    | none ↦ (ok no_analytics, s)
    | some a ↦ acknowledged s (ap.acknowledge_alert id a)
  ]
