-- ===== src/Budget/AdminAdapter.antt =====
-- internal/budget/adminadapter.go: the budget manager as the admin API uses it.
use aigateway.Prelude.{List}
use aigateway.Float.{Float64}
use aigateway.Budget.{Manager, SpendScope, all_statuses}
use aigateway.Budget.Forecast.{Calendar, forecast_all}
use aigateway.Admin.{BudgetProvider}

pub record AdminAdapter (F : Type 0) : Type 0 where
  pub manager : Manager F
  pub scopes : List (SpendScope F)

module _ (fl : Float64) (sub : fl.F → fl.F → fl.F) (clock : Calendar fl.F) where
  open fl use {F}

  abbrev pub admin_adapter : BudgetProvider F
  admin_adapter = record {
    S = AdminAdapter F;
    all_statuses = λ a. all_statuses fl a.manager;
    forecast_all = λ a. forecast_all fl sub clock a.scopes a.manager;
  }
