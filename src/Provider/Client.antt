-- ===== src/Provider/Client.antt =====
-- internal/provider: what the adapters share. The HTTP client (net/http), the JSON encoder
-- (encoding/json) and the printing of numbers are parameters; each adapter repeats the lines that
-- send a request and read the answer, which are written here once.
use Prim.Native.Nat.{◌/◌}
use Prim.Native.String.{◌++◌, len}
use aigateway.Prelude.{ℕ, String, List, [], ◌∷◌, map, ◌==◌, if◌then◌else◌, ◌*◌, ◌^◌}
use aigateway.Prelude.Dict.{Dict}
pub use aigateway.Prelude.Results.{Result, ok, err, panics, ◌>>=◌}
use aigateway.Types.{Model, Choice, StreamChunk}

-- fmt.Errorf("…: %w", err)
abbrev pub wrap : {A : Type 0} → String → Result A → Result A
wrap context (ok a) = ok a
wrap context (err e) = err (context ++ (": " ++ e))
wrap context panics = panics

abbrev pub Bytes : Type 0
Bytes = List ℕ

pub record Outgoing : Type 0 where
  pub http_method : String
  pub url : String
  pub headers : Dict String
  pub body : Bytes

pub record Incoming : Type 0 where
  pub status_code : ℕ
  pub body : Bytes

-- What an adapter uses of the libraries, for requests `Q` and responses `R` of its vendor.
pub record Library (Q R : Type 0) : Type 0 where
  pub marshal : Q → Result Bytes
  pub new_request : Outgoing → Result Outgoing
  pub client_do : Outgoing → Result Incoming
  pub decode : Bytes → Result R
  pub to_text : Bytes → String
  pub decimal : ℕ → String

module _ {Q R : Type 0} (lib : Library Q R) where
  -- A response with a status other than 200 is an error with its body.
  unfoldable pub check_status : Incoming → Result Incoming
  check_status resp =
      if resp.status_code == 200
      then ok resp
      else err (
          "provider returned status "
          ++ (lib.decimal resp.status_code ++ (": " ++ lib.to_text resp.body)))

  -- From the request of the vendor to its response; `headers` are made from the body.
  unfoldable pub send : String → (Bytes → Dict String) → Q → Result Incoming
  unfolding check_status
  send url headers q = do
    body ← wrap "marshaling request" (lib.marshal q)
    out ← wrap "creating request" (
        lib.new_request
          record { http_method = "POST"; url = url; headers = headers body; body = body })
    resp ← wrap "sending request" (lib.client_do out)
    check_status resp

  unfoldable pub receive : Incoming → Result R
  receive resp = wrap "decoding response" (lib.decode resp.body)

-- The models of a provider: `Models` of the adapters.
unfoldable pub models_of : String → List String → List Model
models_of name models = map (λ m. record { id = m; object = "model"; provider = name }) models

-- `EstimateTokens`, the same in all adapters.
unfoldable pub estimate_tokens : String → ℕ
estimate_tokens text = if len text == 0 then 0 else len text / 4

abbrev pub second : ℕ
second = 10 ^ 9

-- `if timeout == 0 { timeout = 60 * time.Second }`
abbrev pub default_timeout : ℕ → ℕ
default_timeout timeout = if timeout == 0 then 60 * second else timeout

-- What is written to the client of a stream: a chunk, or the mark that ends it.
pub data Event : Type 0 where
  data_event : StreamChunk → Event
  done_event : Event

-- fmt.Fprintf(pw, "data: %s\n\n", data)
unfoldable pub print_event : (StreamChunk → String) → Event → String
print_event marshal (data_event chunk) = "data: " ++ (marshal chunk ++ "\n\n")
print_event marshal done_event = "data: [DONE]\n\n"

-- The chunk of a piece of content, and the one that ends a stream.
unfoldable pub chunk_of : String → ℕ → String → String → String → StreamChunk
chunk_of id now model content finish_reason = record {
  id = id;
  object = "chat.completion.chunk";
  created = now;
  model = model;
  choices =
      record {
        index = 0;
        delta = record { role = ""; content = content };
        finish_reason = finish_reason;
      }
      ∷ [];
}

unfoldable pub final_events : String → ℕ → String → List Event
unfolding chunk_of
final_events id now model = data_event (chunk_of id now model "" "stop") ∷ done_event ∷ []

-- The only choice of the answers that the adapters make.
abbrev pub answer_choices : String → List Choice
answer_choices content =
    record {
      index = 0;
      message = record { role = "assistant"; content = content };
      finish_reason = "stop";
    }
    ∷ []
