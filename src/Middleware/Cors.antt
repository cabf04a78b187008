-- ===== src/Middleware/Cors.antt =====
-- internal/middleware/cors.go: cross-origin requests. The text of a number and the joining of texts
-- are the standard library's.
use aigateway.Prelude.{
  ℕ, String, Bool, true, false, List, [], ◌∷◌, ◌&&◌, ◌||◌, not, length, ltb, str_eq, if◌then◌else◌,
  none,
}
use aigateway.Config.Types.{CorsConfig}
use aigateway.Middleware.Http.{HttpRequest, Headers, header_set, Step, go, fail}

-- strings.Join and strconv.Itoa
pub record TextFormat : Type 0 where
  pub join : List String → String → String
  pub itoa : ℕ → String

-- The loop over the allowed origins.
unfoldable pub allows : String → List String → Bool
allows origin [] = false
allows origin (o ∷ os) =
    let rest = allows origin os in if str_eq o "*" || str_eq o origin then true else rest

unfoldable pub has_wildcard_origin : List String → Bool
has_wildcard_origin [] = false
has_wildcard_origin (o ∷ os) =
    let rest = has_wildcard_origin os in if str_eq o "*" then true else rest

module _ (text : TextFormat) (cfg : CorsConfig) where
  -- The headers of every answer to an allowed origin.
  unfoldable pub cors_headers : String → Headers → Headers
  cors_headers origin headers =
      let h1 : Headers = header_set "Access-Control-Allow-Origin" origin headers in
      let h2 : Headers =
        (if cfg.allow_credentials && not (has_wildcard_origin cfg.allowed_origins)
          then header_set "Access-Control-Allow-Credentials" "true" h1
          else h1) in
      if ltb 0 (length cfg.exposed_headers)
      then header_set "Access-Control-Expose-Headers" (text.join cfg.exposed_headers ", ") h2
      else h2

  -- Those of the answer to a preflight.
  unfoldable pub preflight_headers : Headers → Headers
  preflight_headers headers = header_set "Access-Control-Max-Age" (text.itoa cfg.max_age) (
      header_set "Access-Control-Allow-Headers" (text.join cfg.allowed_headers ", ")
        (header_set "Access-Control-Allow-Methods" (text.join cfg.allowed_methods ", ") headers))

  unfoldable pub cors : HttpRequest → Headers → Step Headers
  cors r headers =
      if not cfg.enabled
      then go headers
      else if str_eq r.origin ""
      then go headers
      else if allows r.origin cfg.allowed_origins
      then (let allowed : Headers = cors_headers r.origin headers in
          if str_eq r.http_method "OPTIONS"
          then fail (record { status = 204; headers = preflight_headers allowed; error = none })
          else go allowed)
      else go headers
