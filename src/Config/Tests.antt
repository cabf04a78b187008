-- ===== src/Config/Tests.antt =====
-- Runs on the configuration of internal/config/config.go, and the theorems at them.
use aigateway.Prelude.{ℕ, ◌≡◌, refl, none, some, [], ◌∷◌}
use aigateway.Config.Sample.{tenant_of, empty}
use aigateway.Config.{has_key, find_from, find_tenant_by_api_key}
use aigateway.Config.Tenants.{Found, find_tenant_by_api_key_exact}

-- The later tenant has the shared key.
shared_key : find_tenant_by_api_key (λ s. s) "k2" empty ≡ some (tenant_of "zeta" ("k2" ∷ []))
unfolding find_tenant_by_api_key find_from has_key
shared_key = refl

find_tenant_by_api_key_exact_example :
    Found (λ s. s) "k2" empty.tenants none (find_tenant_by_api_key (λ s. s) "k2" empty)
find_tenant_by_api_key_exact_example = find_tenant_by_api_key_exact (λ s. s) "k2" ℕ empty
