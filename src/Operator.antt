-- ===== src/Operator.antt =====
-- internal/operator/configbuilder.go: the configuration that the operator builds from the resources.
use aigateway.Prelude.{ℕ, String, true, false, none, List, [], ◌∷◌, map, str_eq, if◌then◌else◌}
use aigateway.Config.Types.{
  RegionConfig, ProviderConfig, RouteConfig, TenantConfig, PolicyConfig, Config,
}
use aigateway.Config.Zero.{zero_config}

pub record ProviderInput : Type 0 where
  pub name : String
  pub type : String
  pub base_url : String
  pub api_key_env : String
  pub models : List String
  pub timeout : ℕ
  pub max_retries : ℕ
  pub region : String

pub record RegionInput : Type 0 where
  pub name : String
  pub providers : List String
  pub strategy : String

pub record RouteInput : Type 0 where
  pub model : String
  pub providers : List String
  pub strategy : String
  pub regions : List RegionInput

pub record TenantInput : Type 0 where
  pub id : String
  pub name : String
  pub api_keys : List String
  pub requests_per_minute : ℕ
  pub tokens_per_minute : ℕ
  pub allowed_models : List String

pub record PolicyInput : Type 0 where
  pub name : String
  pub phase : String
  pub type : String
  pub action : String
  pub keywords : List String
  pub patterns : List String
  pub wasm_path : String
  pub timeout : ℕ
  pub on_error : String

pub record GatewayInput : Type 0 where
  pub port : ℕ
  pub admin_port : ℕ
  pub log_level : String
  pub log_format : String

unfoldable pub provider_of : ProviderInput → ProviderConfig
provider_of p = record {
  name = p.name;
  type = p.type;
  enabled = true;
  default = false;
  base_url = p.base_url;
  api_key_env = p.api_key_env;
  models = p.models;
  timeout = p.timeout;
  max_retries = p.max_retries;
  api_version = "";
  config = [];
  region = p.region;
}

unfoldable pub region_of : RegionInput → RegionConfig
region_of r = record { name = r.name; providers = r.providers; strategy = r.strategy }

unfoldable pub route_of : {F : Type 0} → RouteInput → RouteConfig F
unfolding region_of
route_of r = record {
  match = record { model = r.model };
  providers = r.providers;
  strategy = r.strategy;
  canary = none;
  regions = map region_of r.regions;
}

unfoldable pub tenant_from : TenantInput → TenantConfig
tenant_from t = record {
  id = t.id;
  name = t.name;
  api_keys = t.api_keys;
  rate_limit = record {
    requests_per_minute = t.requests_per_minute;
    tokens_per_minute = t.tokens_per_minute;
  };
  allowed_models = t.allowed_models;
}

unfoldable pub policy_of : PolicyInput → PolicyConfig
policy_of p = record {
  name = p.name;
  type = p.type;
  action = p.action;
  keywords = p.keywords;
  patterns = p.patterns;
  path = p.wasm_path;
  timeout = p.timeout;
  on_error = p.on_error;
}

-- The policies of the one phase, and those of any other.
unfoldable pub input_policies : List PolicyInput → List PolicyConfig
unfolding policy_of
input_policies [] = []
input_policies (p ∷ ps) =
    let rest = input_policies ps in if str_eq p.phase "input" then policy_of p ∷ rest else rest

unfoldable pub output_policies : List PolicyInput → List PolicyConfig
unfolding policy_of
output_policies [] = []
output_policies (p ∷ ps) =
    let rest = output_policies ps in if str_eq p.phase "input" then rest else policy_of p ∷ rest

unfoldable pub build_config :
    {F : Type 0}
    → F
    → GatewayInput
    → List ProviderInput
    → List RouteInput
    → List TenantInput
    → List PolicyInput
    → Config F
unfolding provider_of route_of tenant_from input_policies output_policies
build_config zero gw providers routes tenants policies =
    let empty = zero_config zero in
    record empty {
      server = record empty.server { host = "0.0.0.0"; port = gw.port; admin_port = gw.admin_port };
      logging = record { level = gw.log_level; format = gw.log_format };
      providers = map provider_of providers;
      routes = map route_of routes;
      tenants = map tenant_from tenants;
      policies = record { input = input_policies policies; output = output_policies policies };
    }
