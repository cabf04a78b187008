-- ===== src/Budget.antt =====
-- internal/budget/budget.go: spending limits by scope. A clock reading is the calendar month it
-- falls in, counted from year 0, which is all that the source uses of it. Floats and the formatted
-- messages are parameters.
pub mod AdminAdapter
pub mod Verdict
pub mod Spending
pub mod Forecast
mod Tests
use Prim.Native.String.{◌++◌ as str_append}
use mathlib.Core.List.{◌++◌}
use aigateway.Prelude.{
  ℕ, String, Bool, true, false, Option, none, some, List, [], ◌∷◌, ◌==◌, if◌then◌else◌, str_eq,
}
use aigateway.Prelude.Dict.{Dict, lookup, insert}
use aigateway.Float.{Float64}

module _ (F : Type 0) where
  pub record SpendScope : Type 0 where
    pub scope : String
    pub scope_id : String
    pub limit : F
    pub alert_at : ℕ
    pub warn_at : ℕ

  pub record SpendTracker : Type 0 where
    pub current_period : ℕ
    pub accumulated : F

  pub record Manager : Type 0 where
    pub spends : Dict SpendTracker
    pub scopes : List SpendScope

  pub record SpendStatus : Type 0 where
    pub scope : String
    pub scope_id : String
    pub limit : F
    pub current_spend : F
    pub percentage : F
    pub status : String
    pub alert_at : ℕ
    pub warn_at : ℕ

pub record CheckResult : Type 0 where
  pub allowed : Bool
  pub warnings : List String
  pub block_msg : String

-- The formatted messages: of a budget that is exhausted, and of one that is nearly used.
pub record Messages (fl : Float64) : Type 0 where
  pub exhausted_text : String → fl.F → fl.F → String
  pub used_text : String → fl.F → String

-- The key of a tenant's model: tenantID + ":" + model
abbrev pub tenant_model_key : String → String → String
tenant_model_key tenant_id model = str_append tenant_id (str_append ":" model)

-- The key that a scope is charged under for a request, where it applies to the request.
unfoldable pub scope_key : {F : Type 0} → String → String → SpendScope F → Option String
scope_key tenant_id model s =
    if str_eq s.scope "global"
    then some "global"
    else if str_eq s.scope "tenant"
    then (if str_eq s.scope_id tenant_id then some tenant_id else none)
    else if str_eq s.scope "tenant_model"
    then (if str_eq s.scope_id (tenant_model_key tenant_id model)
        then some (tenant_model_key tenant_id model)
        else none)
    else some ""

module _ (fl : Float64) where
  open fl use {F, of_int, add, mul, div, lt, le}

  -- A tracker of a month with nothing spent.
  abbrev pub fresh_tracker : ℕ → SpendTracker F
  fresh_tracker month = record { current_period = month; accumulated = of_int 0 }

  -- The loop of `NewManager`.
  unfoldable pub fresh_spends :
      ℕ → List (SpendScope F) → Dict (SpendTracker F) → Dict (SpendTracker F)
  fresh_spends month [] spends = spends
  fresh_spends month (s ∷ ss) spends =
      fresh_spends month ss (insert s.scope_id (fresh_tracker month) spends)

  unfoldable pub new_manager : ℕ → List (SpendScope F) → Manager F
  unfolding fresh_spends
  new_manager month scopes = record { spends = fresh_spends month scopes []; scopes = scopes }

  -- The tracker, emptied if it is of another month, with the cost added.
  abbrev pub charged : ℕ → F → SpendTracker F → SpendTracker F
  charged month cost t =
      let current = if month == t.current_period then t else fresh_tracker month in
      record current { accumulated = add current.accumulated cost }

  abbrev pub tracker_or_fresh : ℕ → Option (SpendTracker F) → SpendTracker F
  tracker_or_fresh month none = fresh_tracker month
  tracker_or_fresh month (some t) = t

  -- One round of the loop of `RecordSpend`.
  unfoldable pub charge_key : ℕ → F → String → Dict (SpendTracker F) → Dict (SpendTracker F)
  charge_key month cost key spends =
      insert key (charged month cost (tracker_or_fresh month (lookup key spends))) spends

  unfoldable pub record_spend : ℕ → String → String → F → Manager F → Manager F
  unfolding charge_key
  record_spend month tenant_id model cost m =
      let charge : String → Dict (SpendTracker F) → Dict (SpendTracker F) = charge_key month cost in
      record m {
        spends =
            charge (tenant_model_key tenant_id model) (charge tenant_id (charge "global" m.spends));
      }

  abbrev pub percentage_of : SpendScope F → SpendTracker F → F
  percentage_of s t = mul (div t.accumulated s.limit) (of_int 100)

  -- The loop of `Check`, with the warnings so far.
  unfoldable pub check_scopes :
      Messages fl
      → Dict (SpendTracker F)
      → String
      → String
      → List (SpendScope F)
      → List String
      → CheckResult
  unfolding scope_key
  check_scopes msgs spends tenant_id model [] warnings = record {
    allowed = true;
    warnings = warnings;
    block_msg = "";
  }
  check_scopes msgs spends tenant_id model (s ∷ ss) warnings =
      let next : List String → CheckResult = check_scopes msgs spends tenant_id model ss in
      elim (scope_key tenant_id model s) [
        | none ↦ next warnings
        | some key ↦ elim (lookup key spends) [
          | none ↦ next warnings
          | some t ↦
              let pct = percentage_of s t in
              if le s.limit (of_int 0)
              then next warnings
              else if le (of_int 100) pct
              then (record {
                allowed = false;
                warnings = warnings;
                block_msg = msgs.exhausted_text s.scope s.limit t.accumulated;
              })
              else if le (of_int s.warn_at) pct
              then next (warnings ++ msgs.used_text s.scope pct ∷ [])
              else next warnings
        ]
      ]

  unfoldable pub check : Messages fl → String → String → Manager F → CheckResult
  check msgs tenant_id model m = check_scopes msgs m.spends tenant_id model m.scopes []

  unfoldable pub status_of : SpendScope F → F → String
  status_of s pct =
      if le (of_int 100) pct
      then "blocked"
      else if le (of_int s.warn_at) pct
      then "warn"
      else if le (of_int s.alert_at) pct
      then "alert"
      else "normal"

  -- The loop of `AllStatuses`.
  unfoldable pub statuses_of : Dict (SpendTracker F) → List (SpendScope F) → List (SpendStatus F)
  unfolding status_of
  statuses_of spends [] = []
  statuses_of spends (s ∷ ss) =
      let rest = statuses_of spends ss in
      elim (lookup s.scope_id spends) [
        | none ↦ rest
        | some t ↦
            let pct = if lt (of_int 0) s.limit then percentage_of s t else of_int 0 in
            (record {
              scope = s.scope;
              scope_id = s.scope_id;
              limit = s.limit;
              current_spend = t.accumulated;
              percentage = pct;
              status = status_of s pct;
              alert_at = s.alert_at;
              warn_at = s.warn_at;
            })
            ∷ rest
      ]

  unfoldable pub all_statuses : Manager F → List (SpendStatus F)
  all_statuses m = statuses_of m.spends m.scopes
