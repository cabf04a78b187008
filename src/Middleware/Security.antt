-- ===== src/Middleware/Security.antt =====
-- internal/middleware: who reaches the admin API (admin_auth.go), and which origins get credentials
-- (cors.go).
use aigateway.Prelude.{
  ◌≡◌, ◌≢◌, ◌↔◌, ◌⊎◌, inl, inr, String, true, false, some, [], eq_iff, arith, Bool-cases,
}
use aigateway.Prelude.Dict.{lookup, insert}
use aigateway.Config.Types.{CorsConfig}
use aigateway.Middleware.Http.{HttpRequest, Headers, go}
use aigateway.Middleware.Cors.{TextFormat, has_wildcard_origin, cors_headers}
use aigateway.Middleware.Admin.{extract_bearer_token, is_public, admin_auth}

-- A request reaches the admin API if its path needs no token, or a token is configured and the request
-- bears it.
pub admin_auth_lets_pass :
    (admin_token : String) (r : HttpRequest) (headers : Headers)
    → (admin_auth admin_token r headers ≡ go tt)
      ↔ ((is_public r.path ≡ true) ⊎ ((admin_token ≢ "") × (extract_bearer_token r ≡ admin_token)))
unfolding admin_auth
admin_auth_lets_pass admin_token r headers =
    ground (arith, eq_iff admin_token "", eq_iff (extract_bearer_token r) admin_token)

-- Credentials are allowed to no origin where any origin is.
pub cors_headers-no_wildcard :
    (text : TextFormat) (cfg : CorsConfig) (origin : String)
    → lookup "Access-Control-Allow-Credentials" (cors_headers text cfg origin []) ≡ some "true"
    → has_wildcard_origin cfg.allowed_origins ≡ false
unfolding cors_headers lookup insert
cors_headers-no_wildcard text cfg origin e =
    elim (Bool-cases (has_wildcard_origin cfg.allowed_origins)) [
      | inr none_wild ↦ none_wild
      | inl wild ↦ ground (arith, wild)
    ]
