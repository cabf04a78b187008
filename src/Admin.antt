-- ===== src/Admin.antt =====
-- internal/admin/admin.go: the server of the admin API, what it shows, and the interfaces over which
-- it uses the rollouts, the analytics and the budgets. Each is a state with operations; that of the
-- rollouts and of the analytics changes. What a handler encodes as JSON stands here as a value.
pub mod Handlers
pub mod Routes
pub mod Privacy
pub mod Access
pub mod Atomicity
pub mod Adapters
pub mod Exposure
mod Tests
use aigateway.Prelude.{
  ℕ, String, Bool, true, false, Option, none, some, List, [], ◌∷◌, ◌++◌, map, length, if◌then◌else◌,
}
use aigateway.Prelude.Dict.{Dict}
use aigateway.Prelude.Results.{Result}
use aigateway.Types.{ChatCompletionResponse}
use aigateway.Usage.{Store}
use aigateway.RequestLog.{RequestLog, RequestEntry}
use aigateway.Cache.{MemoryCache, CacheStats}
use aigateway.Config.Types.{Config, ProviderConfig, TenantConfig, PolicyConfig, PoliciesConfig}
use aigateway.Provider.{Registry, get}
use aigateway.Rollout.Manager.{Request}
use aigateway.Budget.{SpendStatus}
use aigateway.Budget.Forecast.{Forecast}
use aigateway.Analytics.{BucketSummary}
use aigateway.Analytics.Alerts.{Alert}

-- AnalyticsProvider
pub record AnalyticsProvider (F : Type 0) : Type 1 where
  pub S : Type 0
  pub realtime_summary : S → Dict (List (BucketSummary F))
  pub recent_alerts : ℕ → S → List (Alert F)
  pub acknowledge_alert : String → S → Bool × S
  pub dimensions : S → List String

-- BudgetProvider
pub record BudgetProvider (F : Type 0) : Type 1 where
  pub S : Type 0
  pub all_statuses : S → List (SpendStatus F)
  pub forecast_all : S → List (Forecast F)

-- RolloutManager; `J` is what it shows of its rollouts.
pub record RolloutManager (F J : Type 0) : Type 1 where
  pub S : Type 0
  pub list_rollouts : S → Result (Option J)
  pub create_rollout : Request F → S → Result J × S
  pub get_rollout_with_metrics : String → S → Result J
  pub pause_rollout : String → S → Result (Unit {0}) × S
  pub resume_rollout : String → S → Result (Unit {0}) × S
  pub rollback_rollout : String → S → Result (Unit {0}) × S

pub record ProviderInfo : Type 0 where
  pub name : String
  pub type : String
  pub enabled : Bool
  pub base_url : String
  pub models : List String
  pub healthy : Bool
  pub region : String

pub record TenantInfo : Type 0 where
  pub id : String
  pub name : String
  pub key_count : ℕ
  pub requests_per_minute : ℕ
  pub tokens_per_minute : ℕ
  pub allowed_models : List String

pub record PolicyInfo : Type 0 where
  pub name : String
  pub type : String
  pub action : String
  pub phase : String
  pub keywords : List String
  pub patterns : List String

-- The body of an answer.
pub data Body (F J : Type 0) : Type 0 where
  health status_ok dashboard metrics : Body F J
  error_text : String → Body F J
  usage : Store F → Body F J
  providers : List ProviderInfo → Body F J
  tenants : List TenantInfo → Body F J
  policies : List PolicyInfo → Body F J
  requests : List RequestEntry → Body F J
  cache_stats : CacheStats → Body F J
  no_rollouts : Body F J
  rollouts : J → Body F J
  budgets : List (SpendStatus F) → List (Forecast F) → Body F J
  analytics : List String → Dict (List (BucketSummary F)) → Body F J
  realtime : Dict (List (BucketSummary F)) → Body F J
  alerts : List (Alert F) → Body F J

pub record Answer (F J : Type 0) : Type 0 where
  pub status : ℕ
  pub content_type : String
  pub body : Body F J

-- A handler's answer as JSON, with the status 200 unless `WriteHeader` is called.
abbrev pub json : {F J : Type 0} → ℕ → Body F J → Answer F J
json status body = record { status = status; content_type = "application/json"; body = body }

-- The rows of `providersHandler`; `healthy` is what the provider of a name says of itself.
unfoldable pub provider_info : (String → Bool) → Registry → ProviderConfig → ProviderInfo
provider_info healthy reg pc = record {
  name = pc.name;
  type = pc.type;
  enabled = pc.enabled;
  base_url = pc.base_url;
  models = pc.models;
  healthy =
      if pc.enabled
      then elim (get pc.name reg) [ some p ↦ healthy p.name | none ↦ false ]
      else false;
  region = pc.region;
}

unfoldable pub tenant_info : TenantConfig → TenantInfo
tenant_info t = record {
  id = t.id;
  name = t.name;
  key_count = length t.api_keys;
  requests_per_minute = t.rate_limit.requests_per_minute;
  tokens_per_minute = t.rate_limit.tokens_per_minute;
  allowed_models = t.allowed_models;
}

unfoldable pub policy_info : String → PolicyConfig → PolicyInfo
policy_info phase p = record {
  name = p.name;
  type = p.type;
  action = p.action;
  phase = phase;
  keywords = p.keywords;
  patterns = p.patterns;
}

unfoldable pub policy_infos : PoliciesConfig → List PolicyInfo
unfolding policy_info
policy_infos ps = map (policy_info "input") ps.input ++ map (policy_info "output") ps.output

module _ {F J : Type 0} (rm : RolloutManager F J) (ap : AnalyticsProvider F)
    (bp : BudgetProvider F) where
  pub record Server : Type 0 where
    pub tracker : Store F
    pub cfg : Config F
    pub registry : Registry
    pub request_log : RequestLog
    pub cache : Option (MemoryCache ChatCompletionResponse)
    pub rollout_mgr : Option rm.S
    pub analytics_provider : Option ap.S
    pub budget_provider : Option bp.S
