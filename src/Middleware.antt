-- ===== src/Middleware.antt =====
-- internal/middleware: what a request passes before it reaches its handler. A middleware that calls
-- the next handler last is a function that lets the request go on or answers it. The rate limiters
-- stand behind an interface, which may fail (internal/ratelimit/limiter.go).
pub mod Http
pub mod Limits
pub mod Cors
pub mod Admin
pub mod Chain
pub mod Security
pub mod Admission
mod Tests
use Prim.Native.String.{len, slice, ◌++◌}
use text.Mathlib.Text.{starts_with}
use aigateway.Prelude.{
  ℕ, ◌+◌, ◌/◌, ◌<◌, String, Bool, true, false, Option, none, some, List, [], ◌∷◌, ◌&&◌, ◌||◌, not,
  length, ltb, if◌then◌else◌, str_eq,
}
use aigateway.Types.{ApiError, new_error_response}
use aigateway.Config.Types.{CorsConfig, TenantConfig, Config}
use aigateway.Config.{find_tenant_by_api_key}
use aigateway.Budget.{CheckResult}
use Http.{HttpRequest, Headers, header_set, Failure, error_response, Step, go, fail}
use Limits.{LimitReply, verdict, unavailable, Limiter}

-- The key of the X-API-Key header, or else the bearer token.
unfoldable pub extract_api_key : HttpRequest → String
extract_api_key r =
    if not (str_eq r.x_api_key "")
    then r.x_api_key
    else if starts_with r.authorization "Bearer "
    then slice r.authorization 7 (len r.authorization)
    else ""

-- A request to /health is not checked, and goes on without a tenant.
unfoldable pub auth :
    {F : Type 0} → (String → String) → Config F → HttpRequest → Headers → Step (Option TenantConfig)
unfolding extract_api_key
auth sha256 cfg r headers =
    if str_eq r.path "/health"
    then go none
    else if str_eq (extract_api_key r) ""
    then fail (
        error_response 401 "authentication_error"
          "missing API key — use X-API-Key header or Authorization: Bearer <key>" headers)
    else elim (find_tenant_by_api_key sha256 (extract_api_key r) cfg) [
      | none ↦ fail (error_response 401 "authentication_error" "invalid API key" headers)
      | some t ↦ go (some t)
    ]

-- The answer to a limiter's reply.
unfoldable pub limited : LimitReply → String → Headers → Step (Unit {0})
limited unavailable message headers =
    fail (error_response 503 "service_error" "rate limiter unavailable — try again later" headers)
limited (verdict true) message headers = go tt
limited (verdict false) message headers =
    fail (error_response 429 "rate_limit_error" message (header_set "Retry-After" "60" headers))

-- A quarter of the size of the body, and at least one.
abbrev pub estimated_tokens : List ℕ → ℕ
estimated_tokens bytes = if ltb (length bytes / 4) 1 then 1 else length bytes / 4

module _ {S : Type 0} (L : Limiter S) where
  unfoldable pub rate_limit : Option TenantConfig → HttpRequest → Headers → S → Step (Unit {0}) × S
  rate_limit tenant r headers s = if str_eq r.path "/health" then (go tt, s) else elim tenant [
    | none ↦ (go tt, s)
    | some t ↦
        let (reply, s') = L.allow t.id 1 s in
        (limited reply "rate limit exceeded — retry after 60 seconds" headers, s')
  ]

  unfoldable pub token_rate_limit :
      Option TenantConfig → HttpRequest → Headers → S → Step (Unit {0}) × S
  token_rate_limit tenant r headers s =
      if not (str_eq r.path "/v1/chat/completions") then (go tt, s) else elim tenant [
        | none ↦ (go tt, s)
        | some t ↦ elim r.body [
          | none ↦
              (fail (error_response 400 "invalid_request" "failed to read request body" headers), s)
          | some bytes ↦
              let (reply, s') = L.allow ("tok:" ++ t.id) (estimated_tokens bytes) s in
              (limited reply "token rate limit exceeded — retry after 60 seconds" headers, s')
        ]
      ]

abbrev pub with_warnings : List String → Headers → Headers
with_warnings [] headers = headers
with_warnings (w ∷ ws) headers = with_warnings ws (("X-AegisFlow-Budget-Warning", w) ∷ headers)

-- The check of the global and the tenant's budget, with the model "*".
unfoldable pub budget_check :
    Option (String → String → CheckResult)
    → Option TenantConfig
    → HttpRequest
    → Headers
    → Step Headers
budget_check none tenant r headers = go headers
budget_check (some check) tenant r headers =
    if not (str_eq r.path "/v1/chat/completions") then go headers else elim tenant [
      | none ↦ go headers
      | some t ↦
          let result = check t.id "*" in
          if result.allowed
          then go (with_warnings result.warnings headers)
          else fail (error_response 429 "budget_exceeded" result.block_msg headers)
    ]
