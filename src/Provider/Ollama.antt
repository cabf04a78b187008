-- ===== src/Provider/Ollama.antt =====
-- internal/provider/ollama.go. The readings of the clock are arguments; the answer to a streamed
-- request is the list of its objects, one that cannot be decoded as `none`.
use Prim.Native.String.{◌++◌}
use aigateway.Prelude.{
  ℕ, ◌+◌, ◌*◌, String, Bool, true, false, Option, none, some, List, [], ◌∷◌, map, ◌==◌,
  if◌then◌else◌,
}
use aigateway.Prelude.Dict.{Dict, insert}
use aigateway.Types.{Message, ChatCompletionRequest, ChatCompletionResponse, Model}
use aigateway.Provider.Client.{
  Result, ok, err, panics, ◌>>=◌, Bytes, Incoming, Library, send, receive, models_of, second,
  answer_choices, estimate_tokens, Event, data_event, chunk_of, final_events,
}

pub record OllamaProvider : Type 0 where
  pub name : String
  pub base_url : String
  pub models : List String
  pub timeout : ℕ

pub record OllamaMessage : Type 0 where
  pub role : String
  pub content : String

pub record OllamaChatRequest : Type 0 where
  pub model : String
  pub messages : List OllamaMessage
  pub stream : Bool

pub record OllamaChatResponse : Type 0 where
  pub model : String
  pub message : OllamaMessage
  pub done : Bool
  pub prompt_eval_count : ℕ
  pub eval_count : ℕ

unfoldable pub new_ollama_provider : String → String → List String → OllamaProvider
new_ollama_provider name base_url models = record {
  name = name;
  base_url = base_url;
  models = models;
  timeout = 120 * second;
}

unfoldable pub ollama_request : Bool → ChatCompletionRequest → OllamaChatRequest
ollama_request stream req = record {
  model = req.model;
  messages = map (λ m. record { role = m.role; content = m.content }) req.messages;
  stream = stream;
}

-- `req.Messages[len(req.Messages)-1].Content`
unfoldable pub last_content : List Message → Result String
last_content [] = panics
last_content (m ∷ []) = ok m.content
last_content (m ∷ (m' ∷ ms)) = last_content (m' ∷ ms)

-- The prompt's tokens: an estimate where the answer has none.
abbrev pub prompt_tokens_of : ℕ → List Message → Result ℕ
prompt_tokens_of count ms =
    if count == 0 then (last_content ms >>= λ text. ok (estimate_tokens text)) else ok count

abbrev pub completion_tokens_of : ℕ → String → ℕ
completion_tokens_of count content = if count == 0 then estimate_tokens content else count

-- The answer, with the tokens of the prompt.
abbrev pub answer_with :
    String → ℕ → OllamaChatResponse → ChatCompletionRequest → ℕ → ChatCompletionResponse
answer_with id now resp req prompt_tokens =
    let completion_tokens = completion_tokens_of resp.eval_count resp.message.content in
    record {
      id = id;
      object = "chat.completion";
      created = now;
      model = req.model;
      choices = answer_choices resp.message.content;
      usage = record {
        prompt_tokens = prompt_tokens;
        completion_tokens = completion_tokens;
        total_tokens = prompt_tokens + completion_tokens;
      };
    }

-- From the vendor's answer on.
unfoldable pub answer_of :
    String → ℕ → OllamaChatResponse → ChatCompletionRequest → Result ChatCompletionResponse
unfolding estimate_tokens last_content
answer_of id now resp req = do
  prompt_tokens ← prompt_tokens_of resp.prompt_eval_count req.messages
  ok (answer_with id now resp req prompt_tokens)

module _ (id model : String) (clock : ℕ → ℕ) where
  -- The loop of the stream, at object `i`.
  unfoldable pub relay_stream : ℕ → List (Option OllamaChatResponse) → List Event
  unfolding chunk_of final_events
  relay_stream i [] = []
  relay_stream i (none ∷ chunks) = []
  relay_stream i (some c ∷ chunks) =
      let rest = relay_stream (i + 1) chunks in
      if c.done
      then final_events id (clock i) model
      else data_event (chunk_of id (clock i) model c.message.content "") ∷ rest

module _ (lib : Library OllamaChatRequest OllamaChatResponse) (o : OllamaProvider) where
  abbrev headers : Bytes → Dict String
  headers body = insert "Content-Type" "application/json" []

  unfoldable pub chat_completion :
      String → ℕ → ChatCompletionRequest → Result ChatCompletionResponse
  unfolding ollama_request send receive answer_of
  chat_completion id now req = do
    resp ← send lib (o.base_url ++ "/api/chat") headers (ollama_request false req)
    ollama_resp ← receive lib resp
    answer_of id now ollama_resp req

  unfoldable pub chat_completion_stream :
      (Bytes → List (Option OllamaChatResponse))
      → String
      → (ℕ → ℕ)
      → ChatCompletionRequest
      → Result (List Event)
  unfolding ollama_request send relay_stream
  chat_completion_stream objects id clock req = do
    resp ← send lib (o.base_url ++ "/api/chat") headers (ollama_request true req)
    ok (relay_stream id req.model clock 0 (objects resp.body))

-- `tags` is the request of the models, a GET with the names that its answer has.
module _ (o : OllamaProvider) where
  abbrev or_configured : List String → List Model
  or_configured [] = models_of o.name o.models
  or_configured (n ∷ ns) = models_of o.name (n ∷ ns)

  unfoldable pub list_models : (String → Option (List String)) → List Model
  unfolding models_of
  list_models tags = elim (tags (o.base_url ++ "/api/tags")) [
    | none ↦ or_configured []
    | some names ↦ or_configured names
  ]

  unfoldable pub healthy : (String → Result Incoming) → Bool
  healthy get = elim (get (o.base_url ++ "/api/tags")) [
    | ok resp ↦ resp.status_code == 200
    | err e ↦ false
    | panics ↦ false
  ]
