-- ===== src/Config.antt =====
-- internal/config/config.go: the defaults that `Load` fills in, and the tenant of an API key. The
-- file and its YAML are what `Load` is given decoded. Defaults of the constants are nanoseconds.
pub mod Watcher
pub mod Types
pub mod Defaults
pub mod Tenants
pub mod Zero
pub mod Sample
mod Tests
use aigateway.Prelude.{
  ℕ, String, Bool, true, false, Option, none, some, List, [], ◌∷◌, ◌&&◌, ◌==◌, if◌then◌else◌,
  str_eq,
}
use aigateway.Float.{Float64}
use Types.{
  CorsConfig, ServerConfig, TelemetryConfig, LoggingConfig, CacheConfig, RateLimitConfig,
  StaticThresholds, BaselineConfig, AnomalyConfig, AnalyticsConfig, BudgetsConfig, TenantConfig,
  Config,
}

unfoldable pub or_text : String → String → String
or_text s d = if str_eq s "" then d else s

unfoldable pub or_number : ℕ → ℕ → ℕ
or_number n d = if n == 0 then d else n

unfoldable pub or_texts : List String → List String → List String
or_texts [] d = d
or_texts (x ∷ xs) d = x ∷ xs

unfoldable pub cors_defaults : CorsConfig → CorsConfig
cors_defaults c =
    if c.enabled
    then (record c {
      allowed_origins = or_texts c.allowed_origins ("*" ∷ []);
      allowed_methods =
          or_texts c.allowed_methods ("GET" ∷ "POST" ∷ "PUT" ∷ "DELETE" ∷ "OPTIONS" ∷ []);
      allowed_headers =
          or_texts c.allowed_headers ("Authorization" ∷ "Content-Type" ∷ "X-API-Key" ∷ []);
      max_age = or_number c.max_age 86400;
    })
    else c

unfoldable pub server_defaults : ServerConfig → ServerConfig
server_defaults s = record s {
  host = or_text s.host "0.0.0.0";
  port = or_number s.port 8080;
  admin_port = or_number s.admin_port 8081;
  read_timeout = or_number s.read_timeout 30_000_000_000;
  write_timeout = or_number s.write_timeout 120_000_000_000;
  graceful_shutdown = or_number s.graceful_shutdown 10_000_000_000;
  cors = cors_defaults s.cors;
}

unfoldable pub logging_defaults : LoggingConfig → LoggingConfig
logging_defaults l = record l { level = or_text l.level "info"; format = or_text l.format "json" }

unfoldable pub telemetry_defaults : TelemetryConfig → TelemetryConfig
telemetry_defaults t = record t {
  exporter = or_text t.exporter "stdout";
  metrics = record t.metrics { path = or_text t.metrics.path "/metrics" };
}

unfoldable pub cache_defaults : CacheConfig → CacheConfig
cache_defaults c = record c {
  backend = or_text c.backend "memory";
  ttl = or_number c.ttl 300_000_000_000;
  max_size = or_number c.max_size 1000;
}

module _ (fl : Float64) where
  open fl use {F, of_int, le}

  -- x == 0, which neither a number nor a NaN tells apart from both orders.
  unfoldable pub is_zero : F → Bool
  is_zero x = le x (of_int 0) && le (of_int 0) x

  unfoldable pub or_float : F → F → F
  or_float x d = if is_zero x then d else x

  unfoldable pub static_defaults : StaticThresholds F → StaticThresholds F
  static_defaults t = record {
    error_rate_max = or_float t.error_rate_max (of_int 20);
    p95_latency_max = or_number t.p95_latency_max 5000;
    requests_per_minute_max = or_number t.requests_per_minute_max 10000;
    cost_per_minute_max = or_float t.cost_per_minute_max (of_int 50);
  }

  unfoldable pub analytics_defaults : AnalyticsConfig F → AnalyticsConfig F
  analytics_defaults a =
      let d = a.anomaly_detection in
      record a {
        retention_hours = or_number a.retention_hours 48;
        flush_interval = or_number a.flush_interval 3_600_000_000_000;
        anomaly_detection = record d {
          evaluation_interval = or_number d.evaluation_interval 60_000_000_000;
          static = static_defaults d.static;
          baseline = record {
            window = or_number d.baseline.window 86_400_000_000_000;
            stddev_threshold = or_float d.baseline.stddev_threshold (of_int 3);
          };
        };
      }

  unfoldable pub budgets_defaults : BudgetsConfig F → BudgetsConfig F
  budgets_defaults b =
      let g = b.global in
      record b {
        global = record g { alert_at = or_number g.alert_at 80; warn_at = or_number g.warn_at 90 };
      }

  unfoldable pub set_defaults : Config F → Config F
  set_defaults c = record c {
    server = server_defaults c.server;
    rate_limit = record c.rate_limit { backend = or_text c.rate_limit.backend "memory" };
    logging = logging_defaults c.logging;
    telemetry = telemetry_defaults c.telemetry;
    cache = cache_defaults c.cache;
    analytics = analytics_defaults c.analytics;
    budgets = budgets_defaults c.budgets;
  }

-- The inner loop of `FindTenantByAPIKey`: whether a key of the tenant has the digest of the given one.
unfoldable pub has_key : (String → String) → String → List String → Bool
has_key sha256 api_key [] = false
has_key sha256 api_key (key ∷ keys) =
    let rest = has_key sha256 api_key keys in
    if str_eq (sha256 api_key) (sha256 key) then true else rest

-- The outer loop, with the match so far: a later one takes its place.
unfoldable pub find_from :
    (String → String) → String → List TenantConfig → Option TenantConfig → Option TenantConfig
unfolding has_key
find_from sha256 api_key [] found = found
find_from sha256 api_key (t ∷ ts) found =
    find_from sha256 api_key ts (if has_key sha256 api_key t.api_keys then some t else found)

unfoldable pub find_tenant_by_api_key :
    {F : Type 0} → (String → String) → String → Config F → Option TenantConfig
find_tenant_by_api_key sha256 api_key c = find_from sha256 api_key c.tenants none
