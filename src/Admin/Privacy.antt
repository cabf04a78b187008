-- ===== src/Admin/Privacy.antt =====
-- internal/admin/admin.go: what the admin API shows of the configuration, and what it changes.
use aigateway.Prelude.{
  ◌≡◌, refl, ap, ℕ, String, Option, none, some, List, [], ◌∷◌, map, length, arith,
}
use mathlib.Core.Path.{ap₂}
use aigateway.Prelude.Results.{ok}
use aigateway.Config.Types.{TenantConfig}
use aigateway.Middleware.Http.{HttpRequest, Headers, Step, go, fail}
use aigateway.Middleware.Cors.{TextFormat, cors}
use aigateway.Admin.{
  AnalyticsProvider, BudgetProvider, RolloutManager, Server, json, tenant_info, tenants,
}
use aigateway.Admin.Handlers.{
  AdminLibrary, tenants_handler, alert_acknowledge_handler, rollout_pause_handler,
  rollout_resume_handler, rollout_rollback_handler, rollouts_create_handler, change_rollout,
}
use aigateway.Admin.Routes.{
  Endpoint, acknowledge, create, pause, resume, rollback, Chi, find_route, routes, handle, serve,
  routed, replied, after_cors,
}

-- The tenants with other API keys.
abbrev pub with_key : (TenantConfig → List String) → TenantConfig → TenantConfig
with_key keys t = record t { api_keys = keys t }

abbrev pub with_keys : (TenantConfig → List String) → List TenantConfig → List TenantConfig
with_keys keys ts = map (with_key keys) ts

tenant_infos-with_keys :
    (keys : TenantConfig → List String) (ts : List TenantConfig)
    → ((t : TenantConfig) → length (keys t) ≡ length t.api_keys)
    → map tenant_info (with_keys keys ts) ≡ map tenant_info ts
unfolding tenant_info
tenant_infos-with_keys keys [] same = refl
tenant_infos-with_keys keys (t ∷ ts) same =
    ap₂ (λ n is. record (tenant_info t) { key_count = n } ∷ is) (same t)
      (tenant_infos-with_keys keys ts same)

module _ {F J : Type 0} (rm : RolloutManager F J) (ap' : AnalyticsProvider F)
    (bp : BudgetProvider F) (lib : AdminLibrary F) where
  -- The server whose tenants have other API keys.
  abbrev pub rekeyed : (TenantConfig → List String) → Server rm ap' bp → Server rm ap' bp
  rekeyed keys s = record s { cfg = record s.cfg { tenants = with_keys keys s.cfg.tenants } }

  handle-rekeyed :
      (keys : TenantConfig → List String)
      → ((t : TenantConfig) → length (keys t) ≡ length t.api_keys)
      → (e : Endpoint) (id : String) (body : Option (List ℕ)) (s : Server rm ap' bp)
      → handle rm ap' bp lib e id body (rekeyed keys s)
        ≡ ((handle rm ap' bp lib e id body s).0, rekeyed keys (handle rm ap' bp lib e id body s).1)
  unfolding handle tenants_handler alert_acknowledge_handler rollout_pause_handler
      rollout_resume_handler rollout_rollback_handler rollouts_create_handler change_rollout
  handle-rekeyed keys same Endpoint.tenants id body s =
      ap (λ is. (ok (json 200 (tenants is)), rekeyed keys s))
        (tenant_infos-with_keys keys s.cfg.tenants same)
  handle-rekeyed keys same acknowledge id body s = ground arith
  handle-rekeyed keys same create id body s = ground arith
  handle-rekeyed keys same pause id body s = ground arith
  handle-rekeyed keys same resume id body s = ground arith
  handle-rekeyed keys same rollback id body s = ground arith
  handle-rekeyed keys same _ id body s = refl

  routed-rekeyed :
      (keys : TenantConfig → List String)
      → ((t : TenantConfig) → length (keys t) ≡ length t.api_keys)
      → (chi : Chi) (r : HttpRequest) (headers : Headers) (s : Server rm ap' bp)
        (found : Option (Endpoint × String))
      → routed rm ap' bp lib chi r headers (rekeyed keys s) found ≡ (
        (routed rm ap' bp lib chi r headers s found).0,
        rekeyed keys (routed rm ap' bp lib chi r headers s found).1,
      )
  routed-rekeyed keys same chi r headers s none = refl
  routed-rekeyed keys same chi r headers s (some (e, id)) =
      ap (λ run. (replied rm ap' bp lib headers run.0, run.1))
        (handle-rekeyed keys same e id r.body s)

  after_cors-rekeyed :
      (keys : TenantConfig → List String)
      → ((t : TenantConfig) → length (keys t) ≡ length t.api_keys)
      → (chi : Chi) (r : HttpRequest) (s : Server rm ap' bp) (step : Step Headers)
      → after_cors rm ap' bp lib chi r (rekeyed keys s) step ≡ (
        (after_cors rm ap' bp lib chi r s step).0,
        rekeyed keys (after_cors rm ap' bp lib chi r s step).1,
      )
  after_cors-rekeyed keys same chi r s (fail f) = refl
  after_cors-rekeyed keys same chi r s (go headers) =
      routed-rekeyed keys same chi r headers s (find_route chi r.http_method r.path routes)

  -- The admin API answers every request alike if the tenants have other API keys, as many as before, and
  -- leaves the same server, with these keys: no answer, now or later, tells anything about a key but how
  -- many there are.
  pub api_keys_hidden :
      (keys : TenantConfig → List String)
      → ((t : TenantConfig) → length (keys t) ≡ length t.api_keys)
      → (text : TextFormat) (chi : Chi) (r : HttpRequest) (s : Server rm ap' bp)
      → serve rm ap' bp lib text chi r (rekeyed keys s)
        ≡ ((serve rm ap' bp lib text chi r s).0, rekeyed keys (serve rm ap' bp lib text chi r s).1)
  unfolding serve
  api_keys_hidden keys same text chi r s =
      after_cors-rekeyed keys same chi r s (cors text s.cfg.server.cors r [])
