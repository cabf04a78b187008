-- ===== src/Budget/Tests.antt =====
-- Runs of the budgets of internal/budget/budget.go, and the theorems at them. Money is counted in
-- whole dollars here.
use mathlib.Core.List.{Memᴰ}
use aigateway.Prelude.{ℕ, ◌≡◌, ◌≢◌, ◌↔◌, refl, String, true, false, [], ◌∷◌, arith, All, eq_iff}
use aigateway.Prelude.Dict.{lookup}
use aigateway.Float.Whole.{whole as dollars}
use aigateway.Budget.{SpendScope, Manager, Messages, scope_key, check}
use aigateway.Budget.Verdict.{is_exhausted, check_exact}
use aigateway.Budget.Spending.{Spend, spends_of, block_lasts}

abbrev messages : Messages dollars
messages = record {
  exhausted_text = λ scope limit current. "budget exhausted";
  used_text = λ scope pct. "budget used";
}

abbrev global_scope : SpendScope ℕ
global_scope = record {
  scope = "global";
  scope_id = "global";
  limit = 50;
  alert_at = 80;
  warn_at = 90;
}

-- The global budget was used up in month 24300.
abbrev manager : Manager ℕ
manager = record {
  spends = ("global", record { current_period = 24300; accumulated = 51 }) ∷ [];
  scopes = global_scope ∷ [];
}

abbrev spend_of : ℕ → String → ℕ → Spend ℕ
spend_of month tenant cost = record {
  month = month;
  tenant_id = tenant;
  model = "gpt-4o";
  cost = cost;
}

check_exact_example :
    ((check dollars messages "acme" "gpt-4o" manager).allowed ≡ true)
    ↔ All (λ s. is_exhausted dollars manager.spends "acme" "gpt-4o" s ≡ false) manager.scopes
check_exact_example = check_exact dollars messages "acme" "gpt-4o" manager

manager_exhausted : is_exhausted dollars manager.spends "acme" "gpt-4o" global_scope ≡ true
unfolding is_exhausted scope_key lookup
manager_exhausted = refl

acme_named : ◌≢◌ {A = String} "acme" ""
acme_named = λ e. ground (arith, eq_iff "acme" "", e)

block_lasts_example :
    spends_of dollars messages (spend_of 24301 "acme" 3 ∷ spend_of 24302 "acme" 4 ∷ []) manager
    ≡ manager
block_lasts_example =
    block_lasts dollars messages "acme" "gpt-4o" global_scope
      (spend_of 24301 "acme" 3 ∷ spend_of 24302 "acme" 4 ∷ []) manager (Memᴰ.head refl) refl
      manager_exhausted (acme_named, (acme_named, tt))

acme_apart : ◌≢◌ {A = String} "acme" "global"
acme_apart = λ e. ground (arith, eq_iff "acme" "global", e)

model_apart : ◌≢◌ {A = String} "acme:gpt-4o" "global"
model_apart = λ e. ground (arith, eq_iff "acme:gpt-4o" "global", e)
