-- ===== src/Usage.antt =====
-- internal/usage: what tenants have used, by model (store.go, tracker.go). Counts are natural
-- numbers, costs are floats. `GetAll` copies the map, which is the store itself here.
pub mod Totals
mod Tests
use aigateway.Prelude.{
  ℕ, ◌+◌, String, Option, none, some, List, [], length, ◌==◌, ◌/◌, str_eq, if◌then◌else◌,
}
use aigateway.Prelude.Dict.{Dict, lookup, insert}
use aigateway.Float.{Float64}
use aigateway.Types.{Usage}

-- tracker.go: a quarter of the bytes of a text.
unfoldable pub estimate_tokens : List ℕ → ℕ
estimate_tokens bytes = if length bytes == 0 then 0 else length bytes / 4

module _ (F : Type 0) where
  pub record ModelUsage : Type 0 where
    pub model : String
    pub requests : ℕ
    pub prompt_tokens : ℕ
    pub completion_tokens : ℕ
    pub total_tokens : ℕ
    pub estimated_cost_usd : F

  pub record TenantUsage : Type 0 where
    pub tenant_id : String
    pub total_requests : ℕ
    pub total_tokens : ℕ
    pub estimated_cost_usd : F
    pub by_model : Dict ModelUsage

abbrev pub Store : Type 0 → Type 0
Store F = Dict (TenantUsage F)

module _ (fl : Float64) where
  open fl use {F, of_int, add, mul, div}

  abbrev pub tenant_or_new : String → Option (TenantUsage F) → TenantUsage F
  tenant_or_new tenant_id none = record {
    tenant_id = tenant_id;
    total_requests = 0;
    total_tokens = 0;
    estimated_cost_usd = of_int 0;
    by_model = [];
  }
  tenant_or_new tenant_id (some t) = t

  abbrev pub model_or_new : String → Option (ModelUsage F) → ModelUsage F
  model_or_new model none = record {
    model = model;
    requests = 0;
    prompt_tokens = 0;
    completion_tokens = 0;
    total_tokens = 0;
    estimated_cost_usd = of_int 0;
  }
  model_or_new model (some m) = m

  abbrev pub add_to_model : Usage → F → ModelUsage F → ModelUsage F
  add_to_model u cost m = record m {
    requests = m.requests + 1;
    prompt_tokens = m.prompt_tokens + u.prompt_tokens;
    completion_tokens = m.completion_tokens + u.completion_tokens;
    total_tokens = m.total_tokens + u.total_tokens;
    estimated_cost_usd = add m.estimated_cost_usd cost;
  }

  abbrev pub add_to_tenant : String → Usage → F → TenantUsage F → TenantUsage F
  add_to_tenant model u cost t = record t {
    total_requests = t.total_requests + 1;
    total_tokens = t.total_tokens + u.total_tokens;
    estimated_cost_usd = add t.estimated_cost_usd cost;
    by_model =
        insert model (add_to_model u cost (model_or_new model (lookup model t.by_model)))
          t.by_model;
  }

  -- Store.Add
  unfoldable pub add_usage : String → String → Usage → F → Store F → Store F
  add_usage tenant_id model u cost s =
      insert tenant_id (add_to_tenant model u cost (tenant_or_new tenant_id (lookup tenant_id s))) s

  -- costPerMillionTokens; a model that is not listed costs 1.
  unfoldable pub rate_of : String → F
  rate_of model =
      if str_eq model "gpt-4o"
      then of_int 5
      else if str_eq model "gpt-4o-mini"
      then div (of_int 15) (of_int 100)
      else if str_eq model "claude-sonnet-4-20250514"
      then of_int 3
      else if str_eq model "llama3"
      then of_int 0
      else if str_eq model "mock"
      then of_int 0
      else if str_eq model "mock-fast"
      then of_int 0
      else of_int 1

  unfoldable pub estimate_cost : String → ℕ → F
  unfolding rate_of
  estimate_cost model tokens = mul (div (of_int tokens) (of_int 1_000_000)) (rate_of model)

  -- Tracker.Record
  unfoldable pub record_usage : String → String → Usage → Store F → Store F
  unfolding add_usage estimate_cost
  record_usage tenant_id model u s =
      add_usage tenant_id model u (estimate_cost model u.total_tokens) s

  unfoldable pub get_usage : String → Store F → Option (TenantUsage F)
  get_usage tenant_id s = lookup tenant_id s
