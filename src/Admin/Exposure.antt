-- ===== src/Admin/Exposure.antt =====
-- cmd/aegisflow/main.go serves the routes of internal/admin/admin.go as they are: nothing mounts the
-- check of internal/middleware/admin_auth.go.
use aigateway.Prelude.{
  ◌≡◌, refl, ◌≢◌, inl, inr, Bool-cases, ℕ, String, true, false, ◌||◌, some, List, [], str_eq,
  eq_iff, arith,
}
use aigateway.Prelude.Dict.{insert}
use aigateway.Float.{Float64}
use aigateway.Middleware.Http.{HttpRequest, Headers, Failure, go, fail, error_response}
use aigateway.Middleware.Cors.{TextFormat, cors}
use aigateway.Middleware.Admin.{admin_auth, is_public, extract_bearer_token}
use aigateway.Rollout.Types.{Rollout, is_running, is_paused}
use aigateway.Rollout.Store.{MemoryStore, get, update}
use aigateway.Rollout.Evaluator.{Library}
use aigateway.Rollout.Manager
use aigateway.Rollout.Manager.{Error, rollback_rollout, rolled_back_at}
use aigateway.Rollout.AdminAdapter.{AdminMoment, admin_adapter}
use aigateway.Admin.{AnalyticsProvider, BudgetProvider, Server, json, status_ok}
use aigateway.Admin.Handlers.{AdminLibrary, change_rollout, rollout_rollback_handler}
use aigateway.Admin.Routes.{Chi, answer, rollback, find_route, routes, handle, serve}

refused_with :
    (code : ℕ) (err_type message : String) (headers : Headers)
    → (error_response code err_type message headers).status ≡ code
unfolding error_response
refused_with code err_type message headers = refl

refuses :
    (token : String) (r : HttpRequest)
    → is_public r.path ≡ false
    → extract_bearer_token r ≢ token
    → (f : Failure) × (admin_auth token r [] ≡ fail f) × (f.status ≡ 401)
unfolding admin_auth is_public extract_bearer_token
refuses token r private wrong = elim (Bool-cases (str_eq token "")) [
  | inl empty ↦ (
    error_response 401 "authentication_error"
        "admin token not configured — set admin.token in config" [],
    ground (arith, private, empty),
    refused_with 401 "authentication_error" "admin token not configured — set admin.token in config"
        [],
  )
  | inr given ↦ (
    error_response 401 "authentication_error" "invalid or missing admin token" [],
    ground (arith, private, given, eq_iff (extract_bearer_token r) token),
    refused_with 401 "authentication_error" "invalid or missing admin token" [],
  )
]

module _ (fl : Float64) (lib : Library fl) (error_text : Error → String) (id_of : ℕ → String)
    (order : MemoryStore fl.F → MemoryStore fl.F) (sort : List (Rollout fl.F) → List (Rollout fl.F))
    (at : AdminMoment) (ap' : AnalyticsProvider fl.F) (bp : BudgetProvider fl.F)
    (alib : AdminLibrary fl.F) where
  open fl use {F}

  rollback_active :
      (m : MemoryStore F) (ro : Rollout F)
      → get ro.id m ≡ some ro
      → (is_running ro.state || is_paused ro.state) ≡ true
      → rollback_rollout at.now ro.id m
        ≡ Manager.ok (insert ro.id (rolled_back_at at.now "manual rollback" ro) m)
  unfolding rollback_rollout get update rolled_back_at
  rollback_active m ro found active = ground (arith, found, active)

  -- Where there is a rollout manager, a request to the admin port that the cross-origin check lets pass,
  -- whose route is the rollback of a stored rollout, running or paused, and whose path is not public, is
  -- answered with 200 and rolls it back although the token of the request is not that of the
  -- configuration; and the check of the token, which nothing mounts, would have refused it with 401.
  pub anyone_rolls_back :
      (text : TextFormat) (chi : Chi) (r : HttpRequest) (headers : Headers) (m : MemoryStore F)
      (ro : Rollout F) (s : Server (admin_adapter fl lib error_text id_of order sort at) ap' bp)
      → s.rollout_mgr ≡ some m
      → get ro.id m ≡ some ro
      → (is_running ro.state || is_paused ro.state) ≡ true
      → cors text s.cfg.server.cors r [] ≡ go headers
      → find_route chi r.http_method r.path routes ≡ some (rollback, ro.id)
      → is_public r.path ≡ false
      → extract_bearer_token r ≢ s.cfg.admin.token
      → (serve (admin_adapter fl lib error_text id_of order sort at) ap' bp alib text chi r s ≡ (
        answer headers (json 200 status_ok),
        record s {
          rollout_mgr = some (insert ro.id (rolled_back_at at.now "manual rollback" ro) m);
        },
      ))
        × ((f : Failure) × (admin_auth s.cfg.admin.token r [] ≡ fail f) × (f.status ≡ 401))
  unfolding serve handle rollout_rollback_handler change_rollout
  anyone_rolls_back text chi r headers m ro s given found active passed route private wrong = (
    ground (arith, given, passed, route, rollback_active m ro found active),
    refuses s.cfg.admin.token r private wrong,
  )
