-- ===== src/Admin/Tests.antt =====
-- A server of the admin API with one rollout and one tenant, and the theorems at it.
use aigateway.Prelude.{
  ◌≡◌, ◌≢◌, refl, ap, length, suc, ℕ, String, true, none, some, List, [], ◌∷◌, map, str_eq, eq_iff,
  arith, if◌then◌else◌,
}
use aigateway.Prelude.Results.{err}
use aigateway.Prelude.Dict.{insert, lookup}
use aigateway.Float.Whole.{whole}
use aigateway.Config.Types.{TenantConfig}
use aigateway.Config.Sample.{empty}
use aigateway.Middleware.Http.{HttpRequest, Failure, fail}
use aigateway.Middleware.Cors.{TextFormat, cors}
use aigateway.Middleware.Admin.{admin_auth, is_public, extract_bearer_token}
use aigateway.RequestLog.{new_request_log}
use aigateway.Rollout.Types.{Rollout, running}
use aigateway.Rollout.Store.{MemoryStore, get}
use aigateway.Rollout.Manager.{rolled_back_at}
use aigateway.Rollout.AdminAdapter.{AdminMoment, RolloutView, admin_adapter}
use aigateway.Analytics.AdminAdapter as AnalyticsAdapter
use aigateway.Budget.AdminAdapter as BudgetAdapter
use aigateway.Admin.{AnalyticsProvider, BudgetProvider, RolloutManager, Server, json, status_ok}
use aigateway.Admin.Handlers.{AdminLibrary}
use aigateway.Admin.Routes.{Chi, answer, find_route, routes, serve, handle}
use aigateway.Admin.Privacy.{rekeyed, api_keys_hidden}
use aigateway.Admin.Access.{reads_change_nothing}
use aigateway.Admin.Atomicity.{is_success, refused_changes_nothing}
use aigateway.Admin.Adapters.{admin_adapter-IsAtomic, admin_adapter-IsAcknowledging}
use aigateway.Admin.Exposure.{anyone_rolls_back}

abbrev at : AdminMoment
at = record { now = 50; since = 40; judged = 50; entries = [] }

abbrev rollouts : RolloutManager ℕ (RolloutView ℕ)
rollouts =
    admin_adapter whole
      record { sort_ints = λ ns. ns; error_rate_text = λ a b. ""; latency_text = λ a b. "" }
      (λ e. "refused") (λ n. "new") (λ s. s) (λ rs. rs) at

abbrev analytics : AnalyticsProvider ℕ
analytics =
    AnalyticsAdapter.admin_adapter whole (λ f. f) record { sorted = λ ns. ns } (λ names. names)
      (λ m. m)

abbrev budgets : BudgetProvider ℕ
budgets =
    BudgetAdapter.admin_adapter whole (λ a b. a) record { hours_since = λ n. 0; days_in_month = 30 }

abbrev library : AdminLibrary ℕ
library = record {
  decode = λ body. err "EOF";
  parse_duration = λ text. err "bad";
  equal_fold = str_eq;
  healthy = λ name. true;
  metrics_type = "text/plain";
}

abbrev plain : TextFormat
plain = record { join = λ ts sep. sep; itoa = λ n. "" }

-- The path of the rollback of "r1" matches its pattern.
abbrev chi : Chi
chi = record {
  match = λ pattern path.
      if str_eq pattern "/admin/v1/rollouts/{id}/rollback"
      then (if str_eq path "/admin/v1/rollouts/r1/rollback" then some "r1" else none)
      else if str_eq pattern path
      then some ""
      else none;
  unrouted = λ method path. 404;
}

abbrev canary : Rollout ℕ
canary = record {
  id = "r1";
  route_model = "gpt-4o";
  baseline_providers = "openai" ∷ [];
  canary_provider = "azure";
  stages = 10 ∷ 100 ∷ [];
  current_stage = 0;
  current_percentage = 10;
  state = running;
  observation_window = 60;
  error_threshold = 5;
  latency_p95_threshold = 1000;
  stage_started_at = 1;
  created_at = 1;
  updated_at = 1;
  completed_at = none;
  rollback_reason = "";
}

abbrev store : MemoryStore ℕ
store = ("r1", canary) ∷ []

abbrev server : Server rollouts analytics budgets
server = record {
  tracker = [];
  cfg = record empty { admin = record { token = "secret" } };
  registry = [];
  request_log = new_request_log 200;
  cache = none;
  rollout_mgr = some store;
  analytics_provider = none;
  budget_provider = none;
}

abbrev ask : String → String → HttpRequest
ask http_method path = record {
  path = path;
  http_method = http_method;
  x_api_key = "";
  authorization = "";
  origin = "";
  body = none;
}

abbrev rollback_request : HttpRequest
rollback_request = ask "POST" "/admin/v1/rollouts/r1/rollback"

no_token : extract_bearer_token rollback_request ≢ "secret"
unfolding extract_bearer_token
no_token = ground (arith, eq_iff "" "secret")

anyone_rolls_back_example :
    (serve rollouts analytics budgets library plain chi rollback_request server ≡ (
      answer [] (json 200 status_ok),
      record server {
        rollout_mgr = some (insert "r1" (rolled_back_at 50 "manual rollback" canary) store);
      },
    ))
    × ((f : Failure) × (admin_auth "secret" rollback_request [] ≡ fail f) × (f.status ≡ 401))
unfolding get lookup cors find_route routes is_public
anyone_rolls_back_example =
    anyone_rolls_back whole
      record { sort_ints = λ ns. ns; error_rate_text = λ a b. ""; latency_text = λ a b. "" }
      (λ e. "refused") (λ n. "new") (λ s. s) (λ rs. rs) at analytics budgets library plain chi
      rollback_request [] store canary server refl refl refl refl refl refl no_token

-- Another key in place of each.
abbrev other_keys : TenantConfig → List String
other_keys t = map (λ k. "hidden") t.api_keys

length-hidden :
    (ks : List String) → length (map {A = String} {B = String} (λ k. "hidden") ks) ≡ length ks
length-hidden [] = refl
length-hidden (k ∷ ks) = ap suc (length-hidden ks)

as_many : (t : TenantConfig) → length (other_keys t) ≡ length t.api_keys
as_many t = length-hidden t.api_keys

api_keys_hidden_example :
    serve rollouts analytics budgets library plain chi
      (ask "GET" "/admin/v1/tenants")
      (rekeyed rollouts analytics budgets library other_keys server)
    ≡ (
      (serve rollouts analytics budgets library plain chi (ask "GET" "/admin/v1/tenants") server).0,
      rekeyed rollouts analytics budgets library other_keys
          (serve rollouts analytics budgets library plain chi
            (ask "GET" "/admin/v1/tenants")
            server).1,
    )
api_keys_hidden_example =
    api_keys_hidden rollouts analytics budgets library other_keys as_many plain chi
      (ask "GET" "/admin/v1/tenants") server

not_posted : ◌≢◌ {A = String} "GET" "POST"
not_posted = ground (arith, eq_iff "GET" "POST")

reads_change_nothing_example :
    (serve rollouts analytics budgets library plain chi (ask "GET" "/admin/v1/rollouts") server).1
    ≡ server
reads_change_nothing_example =
    reads_change_nothing rollouts analytics budgets library plain chi
      (ask "GET" "/admin/v1/rollouts") server not_posted

-- The creation of a rollout with a body that cannot be decoded.
refused_changes_nothing_example :
    (serve rollouts analytics budgets library plain chi (ask "POST" "/admin/v1/rollouts") server).1
    ≡ server
unfolding is_success serve cors find_route routes handle
refused_changes_nothing_example =
    refused_changes_nothing rollouts analytics budgets library
      (admin_adapter-IsAtomic whole
        record { sort_ints = λ ns. ns; error_rate_text = λ a b. ""; latency_text = λ a b. "" }
        (λ e. "refused") (λ n. "new") (λ s. s) (λ rs. rs) at)
      (admin_adapter-IsAcknowledging whole (λ f. f) record { sorted = λ ns. ns } (λ names. names)
        (λ m. m))
      plain chi (ask "POST" "/admin/v1/rollouts") server refl
