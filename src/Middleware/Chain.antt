-- ===== src/Middleware/Chain.antt =====
-- cmd/aegisflow/main.go: the middleware of the gateway, in the order in which it is installed. The
-- two limiters have states of their own.
use aigateway.Prelude.{String, Option, []}
use aigateway.Config.Types.{TenantConfig, Config}
use aigateway.Budget.{CheckResult}
use aigateway.Middleware.Http.{HttpRequest, Headers, Step, go, fail}
use aigateway.Middleware.Limits.{Limiter}
use aigateway.Middleware.Cors.{TextFormat, cors}
use aigateway.Middleware.{auth, rate_limit, token_rate_limit, budget_check}

-- A request that reaches its handler: the tenant, and the headers of the answer so far.
pub record Admitted : Type 0 where
  pub tenant : Option TenantConfig
  pub headers : Headers

-- The last of the middleware.
unfoldable pub admit_budget :
    Option (String → String → CheckResult)
    → Option TenantConfig
    → HttpRequest
    → Headers
    → Step Admitted
unfolding budget_check
admit_budget check tenant r headers = elim (budget_check check tenant r headers) [
  | fail f ↦ fail f
  | go h ↦ go (record { tenant = tenant; headers = h })
]

module _ {S1 S2 : Type 0} (requests : Limiter S1) (tokens : Limiter S2) where
  -- The limiters, and what comes after them.
  unfoldable pub admit_limits :
      Option (String → String → CheckResult)
      → Option TenantConfig
      → HttpRequest
      → Headers
      → S1
      → S2
      → Step Admitted × S1 × S2
  unfolding rate_limit token_rate_limit admit_budget
  admit_limits check tenant r headers s1 s2 =
      let (step, s1') = rate_limit requests tenant r headers s1 in
      elim step [
        | fail f ↦ (fail f, s1', s2)
        | go _ ↦
            let (step', s2') = token_rate_limit tokens tenant r headers s2 in
            elim step' [
              | fail f ↦ (fail f, s1', s2')
              | go _ ↦ (admit_budget check tenant r headers, s1', s2')
            ]
      ]

  -- The whole chain, from the headers of an empty answer on.
  unfoldable pub admit :
      {F : Type 0}
      → TextFormat
      → (String → String)
      → Config F
      → Option (String → String → CheckResult)
      → HttpRequest
      → S1
      → S2
      → Step Admitted × S1 × S2
  unfolding cors auth admit_limits
  admit text sha256 cfg check r s1 s2 = elim (cors text cfg.server.cors r []) [
    | fail f ↦ (fail f, s1, s2)
    | go headers ↦ elim (auth sha256 cfg r headers) [
      | fail f ↦ (fail f, s1, s2)
      | go tenant ↦ admit_limits check tenant r headers s1 s2
    ]
  ]
