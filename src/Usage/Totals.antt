-- ===== src/Usage/Totals.antt =====
-- internal/usage: the totals over a history of `Record`.
use aigateway.Prelude.{
  ℕ, ◌+◌, ◌≡◌, refl, String, List, [], ◌∷◌, ◌&&◌, arith, if◌then◌else◌, str_eq, eq_iff,
}
use aigateway.Prelude.Dict.{lookup, lookup-insert}
use aigateway.Float.{Float64}
use aigateway.Types.{Usage}
use aigateway.Usage.{
  ModelUsage, TenantUsage, Store, tenant_or_new, model_or_new, add_to_model, add_to_tenant,
  add_usage, record_usage, get_usage, estimate_cost,
}

-- One answer: whose it was, by which model, and what it used.
pub record Answered : Type 0 where
  pub tenant_id : String
  pub model : String
  pub usage : Usage

-- The specification: sums over a history, the latest answer first.
pub sum_tenant : String → (Answered → ℕ) → List Answered → ℕ
sum_tenant t f [] = 0
sum_tenant t f (a ∷ rest) =
    let n = sum_tenant t f rest in if str_eq a.tenant_id t then n + f a else n

pub sum_model : String → String → (Answered → ℕ) → List Answered → ℕ
sum_model t m f [] = 0
sum_model t m f (a ∷ rest) =
    let n = sum_model t m f rest in if str_eq a.tenant_id t && str_eq a.model m then n + f a else n

module _ (fl : Float64) where
  open fl use {F}

  pub history : List Answered → Store F
  history [] = []
  history (a ∷ rest) = record_usage fl a.tenant_id a.model a.usage (history rest)

  abbrev pub model_of : String → String → Store F → ModelUsage F
  model_of t m s = model_or_new fl m (lookup m (tenant_or_new fl t (get_usage fl t s)).by_model)

  abbrev pub tenant_of : String → Store F → TenantUsage F
  tenant_of t s = tenant_or_new fl t (get_usage fl t s)

  tenant_step :
      (t : String) (a : Answered) (s : Store F)
      → tenant_of t (record_usage fl a.tenant_id a.model a.usage s) ≡ (
          if str_eq a.tenant_id t
          then add_to_tenant fl a.model a.usage
              (estimate_cost fl a.model a.usage.total_tokens)
              (tenant_of a.tenant_id s)
          else tenant_of t s)
  unfolding record_usage get_usage add_usage
  tenant_step t a s =
      let cost = estimate_cost fl a.model a.usage.total_tokens in
      let new = add_to_tenant fl a.model a.usage cost (tenant_of a.tenant_id s) in
      ground (arith, eq_iff a.tenant_id t, lookup-insert a.tenant_id t new s)

  model_step :
      (t m : String) (a : Answered) (s : Store F)
      → model_of t m (record_usage fl a.tenant_id a.model a.usage s) ≡ (
          if str_eq a.tenant_id t && str_eq a.model m
          then add_to_model fl a.usage
              (estimate_cost fl a.model a.usage.total_tokens)
              (model_of a.tenant_id a.model s)
          else model_of t m s)
  model_step t m a s =
      let cost = estimate_cost fl a.model a.usage.total_tokens in
      let new = add_to_model fl a.usage cost (model_of a.tenant_id a.model s) in
      ground (
        arith,
        eq_iff a.tenant_id t,
        eq_iff a.model m,
        tenant_step t a s,
        lookup-insert a.model m new (tenant_of a.tenant_id s).by_model,
      )

  -- After any answers, what is held of a tenant counts its answers and sums their tokens; and so
  -- does what is held of each of its models, for the answers by that model.
  pub history_totals :
      (t m : String) (answers : List Answered)
      → ((tenant_of t (history answers)).total_requests ≡ sum_tenant t (λ a. 1) answers)
        × ((tenant_of t (history answers)).total_tokens
            ≡ sum_tenant t (λ a. a.usage.total_tokens) answers)
        × ((model_of t m (history answers)).requests ≡ sum_model t m (λ a. 1) answers)
        × ((model_of t m (history answers)).prompt_tokens
            ≡ sum_model t m (λ a. a.usage.prompt_tokens) answers)
        × ((model_of t m (history answers)).completion_tokens
            ≡ sum_model t m (λ a. a.usage.completion_tokens) answers)
        × ((model_of t m (history answers)).total_tokens
            ≡ sum_model t m (λ a. a.usage.total_tokens) answers)
  unfolding history sum_tenant sum_model
  history_totals t m [] = unfold get_usage lookup in (refl, refl, refl, refl, refl, refl)
  history_totals t m (a ∷ rest) = ground (
    arith,
    eq_iff a.tenant_id t,
    eq_iff a.model m,
    tenant_step t a (history rest),
    model_step t m a (history rest),
    history_totals t m rest,
  )
