-- ===== src/Config/Types.antt =====
-- internal/config/config.go: the configuration, as its YAML keys name it. Whole numbers are natural
-- numbers and durations are nanoseconds; a float is of an abstract type `F`.
use aigateway.Prelude.{ℕ, String, Bool, Option, List}
use aigateway.Prelude.Dict.{Dict}

pub record CorsConfig : Type 0 where
  pub enabled : Bool
  pub allowed_origins : List String
  pub allowed_methods : List String
  pub allowed_headers : List String
  pub exposed_headers : List String
  pub allow_credentials : Bool
  pub max_age : ℕ

pub record ServerConfig : Type 0 where
  pub host : String
  pub port : ℕ
  pub admin_port : ℕ
  pub read_timeout : ℕ
  pub write_timeout : ℕ
  pub graceful_shutdown : ℕ
  pub max_body_size : ℕ
  pub cors : CorsConfig

pub record ProviderConfig : Type 0 where
  pub name : String
  pub type : String
  pub enabled : Bool
  pub default : Bool
  pub base_url : String
  pub api_key_env : String
  pub models : List String
  pub timeout : ℕ
  pub max_retries : ℕ
  pub api_version : String
  pub config : Dict String
  pub region : String

pub record RouteMatch : Type 0 where
  pub model : String

pub record RegionConfig : Type 0 where
  pub name : String
  pub providers : List String
  pub strategy : String

pub record TenantRateLimit : Type 0 where
  pub requests_per_minute : ℕ
  pub tokens_per_minute : ℕ

pub record TenantConfig : Type 0 where
  pub id : String
  pub name : String
  pub api_keys : List String
  pub rate_limit : TenantRateLimit
  pub allowed_models : List String

pub record RedisConfig : Type 0 where
  pub address : String
  pub password : String
  pub db : ℕ

pub record RateLimitConfig : Type 0 where
  pub backend : String
  pub redis : RedisConfig

pub record PolicyConfig : Type 0 where
  pub name : String
  pub type : String
  pub action : String
  pub keywords : List String
  pub patterns : List String
  pub path : String
  pub timeout : ℕ
  pub on_error : String

pub record PoliciesConfig : Type 0 where
  pub input : List PolicyConfig
  pub output : List PolicyConfig

pub record OtlpConfig : Type 0 where
  pub endpoint : String
  pub insecure : Bool

pub record MetricsConfig : Type 0 where
  pub enabled : Bool
  pub path : String

pub record TelemetryConfig : Type 0 where
  pub enabled : Bool
  pub exporter : String
  pub otlp : OtlpConfig
  pub metrics : MetricsConfig

pub record LoggingConfig : Type 0 where
  pub level : String
  pub format : String

pub record CacheConfig : Type 0 where
  pub enabled : Bool
  pub backend : String
  pub ttl : ℕ
  pub max_size : ℕ
  pub redis : RedisConfig

pub record WebhookConfig : Type 0 where
  pub url : String

pub record DatabaseConfig : Type 0 where
  pub enabled : Bool
  pub conn_string : String

pub record AdminConfig : Type 0 where
  pub token : String

pub record AliasConfig : Type 0 where
  pub models : Dict String

pub record TransformConfig : Type 0 where
  pub system_prompt_prefix : String
  pub system_prompt_suffix : String
  pub default_system_prompt : String

module _ (F : Type 0) where
  pub record CanaryConfig : Type 0 where
    pub target_provider : String
    pub stages : List ℕ
    pub observation_window : ℕ
    pub error_threshold : F
    pub latency_p95_threshold : ℕ

  pub record RouteConfig : Type 0 where
    pub match : RouteMatch
    pub providers : List String
    pub strategy : String
    pub canary : Option CanaryConfig
    pub regions : List RegionConfig

  pub record StaticThresholds : Type 0 where
    pub error_rate_max : F
    pub p95_latency_max : ℕ
    pub requests_per_minute_max : ℕ
    pub cost_per_minute_max : F

  pub record BaselineConfig : Type 0 where
    pub window : ℕ
    pub stddev_threshold : F

  pub record AnomalyConfig : Type 0 where
    pub enabled : Bool
    pub evaluation_interval : ℕ
    pub static : StaticThresholds
    pub baseline : BaselineConfig

  pub record AnalyticsConfig : Type 0 where
    pub enabled : Bool
    pub retention_hours : ℕ
    pub flush_interval : ℕ
    pub anomaly_detection : AnomalyConfig

  pub record BudgetLimitConfig : Type 0 where
    pub monthly : F
    pub daily : F
    pub alert_at : ℕ
    pub warn_at : ℕ

  pub record TenantBudget : Type 0 where
    pub monthly : F
    pub daily : F
    pub alert_at : ℕ
    pub warn_at : ℕ
    pub models : Dict BudgetLimitConfig

  pub record BudgetsConfig : Type 0 where
    pub enabled : Bool
    pub global : BudgetLimitConfig
    pub tenants : Dict TenantBudget

  pub record Config : Type 0 where
    pub server : ServerConfig
    pub providers : List ProviderConfig
    pub routes : List RouteConfig
    pub tenants : List TenantConfig
    pub rate_limit : RateLimitConfig
    pub policies : PoliciesConfig
    pub telemetry : TelemetryConfig
    pub logging : LoggingConfig
    pub cache : CacheConfig
    pub webhook : WebhookConfig
    pub database : DatabaseConfig
    pub admin : AdminConfig
    pub aliases : AliasConfig
    pub transform : TransformConfig
    pub analytics : AnalyticsConfig
    pub budgets : BudgetsConfig
