-- ===== src/Config/Sample.antt =====
-- A configuration for the tests: what an empty file is decoded to, with two tenants.
use aigateway.Prelude.{ℕ, String, List, [], ◌∷◌}
use aigateway.Config.Zero.{zero_config}
use aigateway.Config.Types.{TenantConfig, Config}

abbrev pub tenant_of : String → List String → TenantConfig
tenant_of id keys = record {
  id = id;
  name = id;
  api_keys = keys;
  rate_limit = record { requests_per_minute = 60; tokens_per_minute = 1000 };
  allowed_models = [];
}

-- What an empty file is decoded to, with two tenants that share a key.
abbrev pub empty : Config ℕ
empty = record (zero_config 0) {
  tenants = tenant_of "acme" ("k1" ∷ "k2" ∷ []) ∷ tenant_of "zeta" ("k2" ∷ []) ∷ [];
}
