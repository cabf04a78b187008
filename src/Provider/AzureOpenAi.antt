-- ===== src/Provider/AzureOpenAi.antt =====
-- internal/provider/azure_openai.go: the format of the gateway under another address and with
-- another header.
use Prim.Native.String.{◌++◌}
use aigateway.Prelude.{ℕ, String, Bool, true, not, List, [], str_eq, if◌then◌else◌}
use aigateway.Prelude.Dict.{Dict, insert}
use aigateway.Types.{ChatCompletionRequest, ChatCompletionResponse, Model}
use aigateway.Provider.Client.{Result, ok, ◌>>=◌, Bytes, send, receive, models_of, default_timeout}
use aigateway.Provider.OpenAi.{OpenAiLibrary}

pub record AzureOpenAiProvider : Type 0 where
  pub name : String
  pub endpoint : String
  pub api_key : String
  pub api_version : String
  pub models : List String
  pub timeout : ℕ

unfoldable pub new_azure_openai_provider :
    (String → String) → String → String → String → String → List String → ℕ → AzureOpenAiProvider
new_azure_openai_provider getenv name endpoint api_key_env api_version models timeout = record {
  name = name;
  endpoint = endpoint;
  api_key = getenv api_key_env;
  api_version = if str_eq api_version "" then "2024-10-21" else api_version;
  models = models;
  timeout = default_timeout timeout;
}

module _ (lib : OpenAiLibrary) (a : AzureOpenAiProvider) where
  unfoldable pub build_url : String → String
  build_url deployment =
      a.endpoint
      ++ ("/openai/deployments/"
          ++ (deployment ++ ("/chat/completions?api-version=" ++ a.api_version)))

  abbrev api_key_headers : Bytes → Dict String
  api_key_headers body = insert "api-key" a.api_key (insert "Content-Type" "application/json" [])

  unfoldable pub chat_completion : ChatCompletionRequest → Result ChatCompletionResponse
  unfolding build_url send receive
  chat_completion req = do
    resp ← send lib (build_url req.model) api_key_headers req
    receive lib resp

  unfoldable pub chat_completion_stream : ChatCompletionRequest → Result Bytes
  unfolding build_url send
  chat_completion_stream req = do
    resp ← send lib (build_url req.model) api_key_headers (record req { stream = true })
    ok resp.body

  unfoldable pub list_models : List Model
  unfolding models_of
  list_models = models_of a.name a.models

  unfoldable pub healthy : Bool
  healthy = not (str_eq a.api_key "")
