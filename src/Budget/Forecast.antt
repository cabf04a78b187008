-- ===== src/Budget/Forecast.antt =====
-- internal/budget/forecast.go: what a scope will have spent at the end of the month. A clock reading is
-- the hours since the month of the tracker began, a float, and the days of the current month. A
-- negative number of days is 0 as a natural number, as the source makes it.
use aigateway.Prelude.{ℕ, String, Bool, false, none, some, List, [], ◌∷◌, if◌then◌else◌}
use aigateway.Prelude.Dict.{lookup}
use aigateway.Float.{Float64}
use aigateway.Budget.{SpendScope, SpendTracker, Manager}

pub record Forecast (F : Type 0) : Type 0 where
  pub scope_id : String
  pub projected_total : F
  pub days_remaining : ℕ
  pub will_exceed : Bool

-- The clock: the hours since a month began, and the days of the present month.
pub record Calendar (F : Type 0) : Type 0 where
  pub hours_since : ℕ → F
  pub days_in_month : ℕ

module _ (fl : Float64) (sub : fl.F → fl.F → fl.F) (clock : Calendar fl.F) where
  open fl use {F, of_int, to_int, mul, div, lt, le}

  abbrev pub no_forecast : String → Forecast F
  no_forecast scope_id = record {
    scope_id = scope_id;
    projected_total = of_int 0;
    days_remaining = 0;
    will_exceed = false;
  }

  -- At least a day.
  unfoldable pub days_elapsed : SpendTracker F → F
  days_elapsed t =
      let days = div (clock.hours_since t.current_period) (of_int 24) in
      if lt days (of_int 1) then of_int 1 else days

  unfoldable pub forecast : String → F → Manager F → Forecast F
  unfolding days_elapsed
  forecast scope_id limit m = elim (lookup scope_id m.spends) [
    | none ↦ no_forecast scope_id
    | some t ↦
        let days_in_month = of_int clock.days_in_month in
        let projected = mul (div t.accumulated (days_elapsed t)) days_in_month in
        if le limit (of_int 0) then no_forecast scope_id else record {
          scope_id = scope_id;
          projected_total = projected;
          days_remaining = to_int (sub days_in_month (days_elapsed t));
          will_exceed = lt limit projected;
        }
  ]

  -- AdminAdapter.ForecastAll
  unfoldable pub forecast_all : List (SpendScope F) → Manager F → List (Forecast F)
  unfolding forecast
  forecast_all [] m = []
  forecast_all (s ∷ ss) m = forecast s.scope_id s.limit m ∷ forecast_all ss m
