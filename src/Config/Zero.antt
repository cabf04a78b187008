-- ===== src/Config/Zero.antt =====
-- The zero value of the configuration (internal/config/config.go), which a decoder and a builder start
-- from.
use aigateway.Prelude.{false, []}
use aigateway.Config.Types.{Config}

abbrev pub zero_config : {F : Type 0} → F → Config F
zero_config zero = record {
  server = record {
    host = "";
    port = 0;
    admin_port = 0;
    read_timeout = 0;
    write_timeout = 0;
    graceful_shutdown = 0;
    max_body_size = 0;
    cors = record {
      enabled = false;
      allowed_origins = [];
      allowed_methods = [];
      allowed_headers = [];
      exposed_headers = [];
      allow_credentials = false;
      max_age = 0;
    };
  };
  providers = [];
  routes = [];
  tenants = [];
  rate_limit = record { backend = ""; redis = record { address = ""; password = ""; db = 0 } };
  policies = record { input = []; output = [] };
  telemetry = record {
    enabled = false;
    exporter = "";
    otlp = record { endpoint = ""; insecure = false };
    metrics = record { enabled = false; path = "" };
  };
  logging = record { level = ""; format = "" };
  cache = record {
    enabled = false;
    backend = "";
    ttl = 0;
    max_size = 0;
    redis = record { address = ""; password = ""; db = 0 };
  };
  webhook = record { url = "" };
  database = record { enabled = false; conn_string = "" };
  admin = record { token = "" };
  aliases = record { models = [] };
  transform = record {
    system_prompt_prefix = "";
    system_prompt_suffix = "";
    default_system_prompt = "";
  };
  analytics = record {
    enabled = false;
    retention_hours = 0;
    flush_interval = 0;
    anomaly_detection = record {
      enabled = false;
      evaluation_interval = 0;
      static = record {
        error_rate_max = zero;
        p95_latency_max = 0;
        requests_per_minute_max = 0;
        cost_per_minute_max = zero;
      };
      baseline = record { window = 0; stddev_threshold = zero };
    };
  };
  budgets = record {
    enabled = false;
    global = record { monthly = zero; daily = zero; alert_at = 0; warn_at = 0 };
    tenants = [];
  };
}
