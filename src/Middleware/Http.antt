-- ===== src/Middleware/Http.antt =====
-- What the middleware and the handlers see of HTTP (net/http): of a request the path, the method,
-- the headers that are read, and the body, which may fail to be read; of a response its status, its
-- headers, the latest first, and its body, here an error of the API.
use aigateway.Prelude.{◌≡◌, ◌⊎◌, inl, inr, refl, ℕ, String, Option, some, List}
use aigateway.Prelude.Dict.{Dict, insert}
use aigateway.Types.{ApiError, new_error_response}

pub record HttpRequest : Type 0 where
  pub path : String
  pub http_method : String
  pub x_api_key : String
  pub authorization : String
  pub origin : String
  pub body : Option (List ℕ)

abbrev pub Headers : Type 0
Headers = Dict String

abbrev pub header_set : String → String → Headers → Headers
header_set name value headers = insert name value headers

-- A request that is answered early: an error, or the empty answer to a preflight.
pub record Failure : Type 0 where
  pub status : ℕ
  pub headers : Headers
  pub error : Option ApiError

-- `writeError`, and the same lines of the middleware.
unfoldable pub error_response : ℕ → String → String → Headers → Failure
error_response code err_type message headers = record {
  status = code;
  headers = header_set "Content-Type" "application/json" headers;
  error = some (new_error_response code err_type message);
}

pub data Step (A : Type 0) : Type 0 where
  go : A → Step A
  fail : Failure → Step A

pub Step-cases : {A : Type 0} (s : Step A) → ((f : Failure) × (s ≡ fail f)) ⊎ ((a : A) × (s ≡ go a))
Step-cases (go a) = inr (a, refl)
Step-cases (fail f) = inl (f, refl)
