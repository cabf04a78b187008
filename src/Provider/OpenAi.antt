-- ===== src/Provider/OpenAi.antt =====
-- internal/provider/openai.go, groq.go, mistral.go and together.go: the adapter of the vendors that
-- speak the format of the gateway. The environment is a parameter of a constructor; times are in
-- nanoseconds; the timeout belongs to the client, which is the library's.
use Prim.Native.String.{◌++◌}
use aigateway.Prelude.{ℕ, String, Bool, true, false, List, [], ◌∷◌, ◌==◌, str_eq, if◌then◌else◌}
use aigateway.Prelude.Dict.{Dict, insert}
use aigateway.Types.{ChatCompletionRequest, ChatCompletionResponse, Model}
use aigateway.Provider.Client.{
  Result, ok, err, panics, ◌>>=◌, Library, Bytes, Incoming, send, receive, models_of,
  default_timeout,
}

pub record OpenAiProvider : Type 0 where
  pub name : String
  pub base_url : String
  pub api_key : String
  pub models : List String
  pub timeout : ℕ
  pub max_retries : ℕ

unfoldable pub new_openai_provider :
    (String → String) → String → String → String → List String → ℕ → ℕ → OpenAiProvider
new_openai_provider getenv name base_url api_key_env models timeout max_retries = record {
  name = name;
  base_url = base_url;
  api_key = getenv api_key_env;
  models = models;
  timeout = default_timeout timeout;
  max_retries = if max_retries == 0 then 2 else max_retries;
}

abbrev or_models : List String → List String → List String
or_models [] defaults = defaults
or_models (m ∷ ms) defaults = m ∷ ms

unfoldable pub new_groq_provider :
    (String → String) → String → String → List String → ℕ → OpenAiProvider
unfolding new_openai_provider
new_groq_provider getenv name api_key_env models timeout =
    new_openai_provider getenv name "https://api.groq.com/openai/v1" api_key_env
      (or_models models
        ("llama-3.3-70b-versatile" ∷ "llama-3.1-8b-instant" ∷ "mixtral-8x7b-32768" ∷ []))
      timeout 2

unfoldable pub new_mistral_provider :
    (String → String) → String → String → List String → ℕ → OpenAiProvider
unfolding new_openai_provider
new_mistral_provider getenv name api_key_env models timeout =
    new_openai_provider getenv name "https://api.mistral.ai/v1" api_key_env
      (or_models models
        ("mistral-large-latest" ∷ "mistral-small-latest" ∷ "open-mistral-nemo" ∷ []))
      timeout 2

unfoldable pub new_together_provider :
    (String → String) → String → String → List String → ℕ → OpenAiProvider
unfolding new_openai_provider
new_together_provider getenv name api_key_env models timeout =
    new_openai_provider getenv name "https://api.together.xyz/v1" api_key_env
      (or_models models
        ("meta-llama/Llama-3.3-70B-Instruct-Turbo" ∷ "mistralai/Mixtral-8x7B-Instruct-v0.1" ∷ []))
      timeout 2

abbrev pub bearer : String → Bytes → Dict String
bearer key body =
    insert "Authorization" ("Bearer " ++ key) (insert "Content-Type" "application/json" [])

-- What the gateway asks of its providers is asked in its own types.
abbrev pub OpenAiLibrary : Type 0
OpenAiLibrary = Library ChatCompletionRequest ChatCompletionResponse

module _ (lib : OpenAiLibrary) (o : OpenAiProvider) where
  unfoldable pub chat_completion : ChatCompletionRequest → Result ChatCompletionResponse
  unfolding send receive
  chat_completion req = do
    resp ← send lib (o.base_url ++ "/chat/completions") (bearer o.api_key) req
    receive lib resp

  -- The body of the answer is passed on as it is.
  unfoldable pub chat_completion_stream : ChatCompletionRequest → Result Bytes
  unfolding send
  chat_completion_stream req = do
    resp ←
        send lib (o.base_url ++ "/chat/completions") (bearer o.api_key)
          (record req { stream = true })
    ok resp.body

  unfoldable pub list_models : List Model
  unfolding models_of
  list_models = models_of o.name o.models

  -- `ping` is the request of the models, a GET.
  unfoldable pub healthy : (String → Dict String → Result Incoming) → Bool
  healthy ping =
      if str_eq o.api_key ""
      then false
      else elim (ping (o.base_url ++ "/models")
          (insert "Authorization" ("Bearer " ++ o.api_key) [])) [
            | ok resp ↦ resp.status_code == 200
            | err e ↦ false
            | panics ↦ false
          ]
