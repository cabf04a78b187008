-- ===== src/Middleware/Admin.antt =====
-- internal/middleware/admin_auth.go: the token of the admin API. The comparison in constant time is
-- the equality of the texts.
use Prim.Native.String.{len, slice}
use text.Mathlib.Text.{starts_with}
use aigateway.Prelude.{String, Bool, ◌&&◌, ◌||◌, not, ltb, str_eq, if◌then◌else◌}
use aigateway.Middleware.Http.{HttpRequest, Headers, error_response, Step, go, fail}

unfoldable pub extract_bearer_token : HttpRequest → String
extract_bearer_token r =
    if ltb 7 (len r.authorization) && starts_with r.authorization "Bearer "
    then slice r.authorization 7 (len r.authorization)
    else ""

-- The paths that need no token.
unfoldable pub is_public : String → Bool
is_public path =
    str_eq path "/health" || (str_eq path "/" || str_eq path "/dashboard") || str_eq path "/metrics"

unfoldable pub admin_auth : String → HttpRequest → Headers → Step (Unit {0})
unfolding extract_bearer_token is_public
admin_auth admin_token r headers =
    if is_public r.path
    then go tt
    else if str_eq admin_token ""
    then fail (
        error_response 401 "authentication_error"
          "admin token not configured — set admin.token in config" headers)
    else if not (str_eq (extract_bearer_token r) admin_token)
    then fail (error_response 401 "authentication_error" "invalid or missing admin token" headers)
    else go tt
