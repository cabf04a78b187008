-- ===== src/Startup.antt =====
-- cmd/aegisflow/main.go: how the gateway is put together from its configuration: the limiters, the
-- scopes of the budgets, the providers and the policies. A range over a map has its order as an
-- argument; a WASM plugin that is loaded is a function, and its loading may fail.
pub mod Limits
pub mod Adapters
mod Kinds
pub mod Registered
mod Tests
use Prim.Native.String.{◌++◌ as str_append}
use aigateway.Prelude.{
  ℕ, String, Bool, true, false, Option, none, some, List, [], ◌∷◌, ◌++◌, ltb, ◌==◌, str_eq,
  if◌then◌else◌,
}
use aigateway.Prelude.Dict.{Dict}
use aigateway.Float.{Float64}
use aigateway.Config.Types.{
  ProviderConfig, TenantConfig, PolicyConfig, PoliciesConfig, BudgetLimitConfig, TenantBudget,
  BudgetsConfig, Config,
}
use aigateway.RateLimit.{MemoryLimiter, new_memory_limiter}
use aigateway.Budget.{SpendScope, tenant_model_key}
use aigateway.Provider.{Registry, register}
use aigateway.Policy.{
  Action, block, warn, log, Violation, Filter, wasm_filter, Engine, TextLibrary, new_keyword_filter,
  new_regex_filter, new_pii_filter,
}

-- The loops over the tenants.
unfoldable pub max_rpm : List TenantConfig → ℕ → ℕ
max_rpm [] best = best
max_rpm (t ∷ ts) best =
    max_rpm ts
      (if ltb best t.rate_limit.requests_per_minute then t.rate_limit.requests_per_minute else best)

unfoldable pub max_tpm : List TenantConfig → ℕ → ℕ
max_tpm [] best = best
max_tpm (t ∷ ts) best =
    max_tpm ts
      (if ltb best t.rate_limit.tokens_per_minute then t.rate_limit.tokens_per_minute else best)

-- The two limiters, with a window of a minute.
unfoldable pub request_limiter : {F : Type 0} → Config F → MemoryLimiter
unfolding max_rpm
request_limiter cfg = new_memory_limiter (max_rpm cfg.tenants 60) 60_000_000_000

unfoldable pub token_limiter : {F : Type 0} → Config F → MemoryLimiter
unfolding max_tpm
token_limiter cfg = new_memory_limiter (max_tpm cfg.tenants 100_000) 60_000_000_000

module _ (fl : Float64) where
  open fl use {F, of_int, lt}

  -- A scope for a monthly limit that is set.
  abbrev pub scope_of : String → String → F → ℕ → ℕ → List (SpendScope F)
  scope_of scope scope_id monthly alert_at warn_at =
      if lt (of_int 0) monthly
      then (record {
        scope = scope;
        scope_id = scope_id;
        limit = monthly;
        alert_at = alert_at;
        warn_at = warn_at;
      })
        ∷ []
      else []

  unfoldable pub model_scopes : String → Dict (BudgetLimitConfig F) → List (SpendScope F)
  model_scopes tenant_id [] = []
  model_scopes tenant_id ((model, mb) ∷ models) =
      scope_of "tenant_model" (tenant_model_key tenant_id model) mb.monthly mb.alert_at mb.warn_at
      ++ model_scopes tenant_id models

  unfoldable pub tenant_scopes :
      (Dict (BudgetLimitConfig F) → Dict (BudgetLimitConfig F))
      → Dict (TenantBudget F)
      → List (SpendScope F)
  unfolding model_scopes
  tenant_scopes order [] = []
  tenant_scopes order ((tenant_id, tb) ∷ tenants) =
      scope_of "tenant" tenant_id tb.monthly tb.alert_at tb.warn_at
      ++ model_scopes tenant_id (order tb.models)
      ++ tenant_scopes order tenants

  unfoldable pub budget_scopes :
      (Dict (TenantBudget F) → Dict (TenantBudget F))
      → (Dict (BudgetLimitConfig F) → Dict (BudgetLimitConfig F))
      → BudgetsConfig F
      → List (SpendScope F)
  unfolding tenant_scopes
  budget_scopes order_tenants order_models b =
      scope_of "global" "global" b.global.monthly b.global.alert_at b.global.warn_at
      ++ tenant_scopes order_models (order_tenants b.tenants)

-- policy.Action of a text: any other than "block" and "warn" acts as "log".
unfoldable pub action_of : String → Action
action_of text = if str_eq text "block" then block else if str_eq text "warn" then warn else log

-- NewWasmFilter: from the name, the action, the path, the timeout and what an error means.
abbrev pub LoadWasm : Type 0
LoadWasm = String → Action → String → ℕ → String → Option (String → Option Violation)

module _ (lib : TextLibrary) (load_wasm : LoadWasm) where
  unfoldable pub wasm_of : PolicyConfig → List Filter
  unfolding action_of
  wasm_of p =
      let timeout = if p.timeout == 0 then 100_000_000 else p.timeout in
      let on_error = if str_eq p.on_error "" then "block" else p.on_error in
      elim (load_wasm p.name (action_of p.action) p.path timeout on_error) [
        | none ↦ []
        | some run ↦ wasm_filter run ∷ []
      ]

  -- The filter of an output policy: there is none of type "pii".
  unfoldable pub output_filter : PolicyConfig → List Filter
  unfolding wasm_of
  output_filter p =
      if str_eq p.type "keyword"
      then new_keyword_filter lib p.name (action_of p.action) p.keywords ∷ []
      else if str_eq p.type "regex"
      then new_regex_filter lib p.name (action_of p.action) p.patterns ∷ []
      else if str_eq p.type "wasm"
      then wasm_of p
      else []

  unfoldable pub input_filter : PolicyConfig → List Filter
  unfolding wasm_of
  input_filter p =
      if str_eq p.type "keyword"
      then new_keyword_filter lib p.name (action_of p.action) p.keywords ∷ []
      else if str_eq p.type "regex"
      then new_regex_filter lib p.name (action_of p.action) p.patterns ∷ []
      else if str_eq p.type "pii"
      then new_pii_filter lib p.name (action_of p.action) p.patterns ∷ []
      else if str_eq p.type "wasm"
      then wasm_of p
      else []

  abbrev filters_of : (PolicyConfig → List Filter) → List PolicyConfig → List Filter
  filters_of f [] = []
  filters_of f (p ∷ ps) = f p ++ filters_of f ps

  unfoldable pub init_policy_engine : PoliciesConfig → Engine
  unfolding input_filter output_filter
  init_policy_engine policies = record {
    input_filters = filters_of input_filter policies.input;
    output_filters = filters_of output_filter policies.output;
  }
