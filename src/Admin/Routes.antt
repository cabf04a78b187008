-- ===== src/Admin/Routes.antt =====
-- internal/admin/admin.go: `Router`. Which pattern a path matches, with the part that stands for
-- `{id}`, and the status of a request that no route takes are those of the router library (chi); a
-- panic is answered with the status 500 by its middleware. The page of metrics is the library's too.
use aigateway.Prelude.{ℕ, String, Option, none, some, List, [], ◌∷◌, str_eq, if◌then◌else◌}
use aigateway.Prelude.Results.{Result, ok, err, panics}
use aigateway.Middleware.Http.{HttpRequest, Headers, Failure, Step, go, fail}
use aigateway.Middleware.Cors.{TextFormat, cors}
use aigateway.Admin.{AnalyticsProvider, BudgetProvider, RolloutManager, Server, Answer, metrics}
use aigateway.Admin.Handlers.{
  AdminLibrary, health_handler, usage_handler, providers_handler, tenants_handler, policies_handler,
  requests_handler, violations_handler, cache_handler, dashboard_handler, budgets_handler,
  analytics_handler, analytics_realtime_handler, alerts_handler, rollouts_list_handler,
  rollout_get_handler, rollouts_create_handler, rollout_pause_handler, rollout_resume_handler,
  rollout_rollback_handler, alert_acknowledge_handler,
}

pub data Endpoint : Type 0 where
  health metrics_page usage providers tenants policies requests violations cache dashboard :
      Endpoint
  analytics realtime alerts acknowledge budgets : Endpoint
  rollouts create rollout pause resume rollback : Endpoint

pub record Route : Type 0 where
  pub http_method : String
  pub pattern : String
  pub endpoint : Endpoint

abbrev get_route : String → Endpoint → Route
get_route pattern e = record { http_method = "GET"; pattern = pattern; endpoint = e }

abbrev post_route : String → Endpoint → Route
post_route pattern e = record { http_method = "POST"; pattern = pattern; endpoint = e }

abbrev more_routes : List Route
more_routes =
    get_route "/admin/v1/analytics" analytics
    ∷ get_route "/admin/v1/analytics/realtime" realtime
    ∷ get_route "/admin/v1/alerts" alerts
    ∷ post_route "/admin/v1/alerts/{id}/acknowledge" acknowledge
    ∷ get_route "/admin/v1/budgets" budgets
    ∷ get_route "/admin/v1/rollouts" rollouts
    ∷ post_route "/admin/v1/rollouts" create
    ∷ get_route "/admin/v1/rollouts/{id}" rollout
    ∷ post_route "/admin/v1/rollouts/{id}/pause" pause
    ∷ post_route "/admin/v1/rollouts/{id}/resume" resume
    ∷ post_route "/admin/v1/rollouts/{id}/rollback" rollback
    ∷ []

unfoldable pub routes : List Route
routes =
    get_route "/health" health
    ∷ get_route "/metrics" metrics_page
    ∷ get_route "/admin/v1/usage" usage
    ∷ get_route "/admin/v1/providers" providers
    ∷ get_route "/admin/v1/tenants" tenants
    ∷ get_route "/admin/v1/policies" policies
    ∷ get_route "/admin/v1/requests" requests
    ∷ get_route "/admin/v1/violations" violations
    ∷ get_route "/admin/v1/cache" cache
    ∷ get_route "/dashboard" dashboard
    ∷ get_route "/" dashboard
    ∷ more_routes

-- chi: the part of a path that a pattern's `{id}` stands for, or "" without one, if it matches; and
-- the status for a request without a route.
pub record Chi : Type 0 where
  pub match : String → String → Option String
  pub unrouted : String → String → ℕ

-- The route of a request, and its `{id}`. No request matches two of them.
unfoldable pub find_route : Chi → String → String → List Route → Option (Endpoint × String)
find_route chi http_method path [] = none
find_route chi http_method path (r ∷ rs) =
    let rest = find_route chi http_method path rs in
    if str_eq r.http_method http_method
    then elim (chi.match r.pattern path) [ none ↦ rest | some id ↦ some (r.endpoint, id) ]
    else rest

-- An answer, an answer of the middleware, one of the library for want of a route, or that to a panic.
pub data Reply (F J : Type 0) : Type 0 where
  answer : Headers → Answer F J → Reply F J
  preflight : Failure → Reply F J
  unrouted : Headers → ℕ → Reply F J
  recovered : Headers → Reply F J

module _ {F J : Type 0} (rm : RolloutManager F J) (ap : AnalyticsProvider F) (bp : BudgetProvider F)
    (lib : AdminLibrary F) where
  -- The handler of an endpoint.
  unfoldable pub handle :
      Endpoint → String → Option (List ℕ) → Server rm ap bp → Result (Answer F J) × Server rm ap bp
  unfolding health_handler usage_handler providers_handler tenants_handler policies_handler
      requests_handler violations_handler cache_handler dashboard_handler budgets_handler
      analytics_handler analytics_realtime_handler alerts_handler rollouts_list_handler
      rollout_get_handler rollouts_create_handler rollout_pause_handler rollout_resume_handler
      rollout_rollback_handler alert_acknowledge_handler
  handle health id body s = (ok (health_handler rm ap bp lib s), s)
  handle metrics_page id body s =
      (ok (record { status = 200; content_type = lib.metrics_type; body = metrics }), s)
  handle usage id body s = (ok (usage_handler rm ap bp lib s), s)
  handle providers id body s = (ok (providers_handler rm ap bp lib s), s)
  handle tenants id body s = (ok (tenants_handler rm ap bp lib s), s)
  handle policies id body s = (ok (policies_handler rm ap bp lib s), s)
  handle requests id body s = (ok (requests_handler rm ap bp lib s), s)
  handle violations id body s = (ok (violations_handler rm ap bp lib s), s)
  handle cache id body s = (ok (cache_handler rm ap bp lib s), s)
  handle dashboard id body s = (ok (dashboard_handler rm ap bp lib s), s)
  handle analytics id body s = (ok (analytics_handler rm ap bp lib s), s)
  handle realtime id body s = (ok (analytics_realtime_handler rm ap bp lib s), s)
  handle alerts id body s = (ok (alerts_handler rm ap bp lib s), s)
  handle acknowledge id body s = alert_acknowledge_handler rm ap bp lib id s
  handle budgets id body s = (ok (budgets_handler rm ap bp lib s), s)
  handle rollouts id body s = (rollouts_list_handler rm ap bp lib s, s)
  handle create id body s = rollouts_create_handler rm ap bp lib body s
  handle rollout id body s = (rollout_get_handler rm ap bp lib id s, s)
  handle pause id body s = rollout_pause_handler rm ap bp lib id s
  handle resume id body s = rollout_resume_handler rm ap bp lib id s
  handle rollback id body s = rollout_rollback_handler rm ap bp lib id s

  abbrev pub replied : Headers → Result (Answer F J) → Reply F J
  replied headers (ok a) = answer headers a
  replied headers (err e) = recovered headers
  replied headers panics = recovered headers

  abbrev pub routed :
      Chi
      → HttpRequest
      → Headers
      → Server rm ap bp
      → Option (Endpoint × String)
      → Reply F J × Server rm ap bp
  routed chi r headers s none = (unrouted headers (chi.unrouted r.http_method r.path), s)
  routed chi r headers s (some (e, id)) =
      let (a, s') = handle e id r.body s in (replied headers a, s')

  -- A request that the middleware lets pass is routed.
  abbrev pub after_cors :
      Chi → HttpRequest → Server rm ap bp → Step Headers → Reply F J × Server rm ap bp
  after_cors chi r s (fail f) = (preflight f, s)
  after_cors chi r s (go headers) =
      routed chi r headers s (find_route chi r.http_method r.path routes)

  -- A request to the admin port.
  unfoldable pub serve :
      TextFormat → Chi → HttpRequest → Server rm ap bp → Reply F J × Server rm ap bp
  serve text chi r s = after_cors chi r s (cors text s.cfg.server.cors r [])
