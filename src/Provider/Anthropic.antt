-- ===== src/Provider/Anthropic.antt =====
-- internal/provider/anthropic.go. What is sent and received is in the vendor's format; the clock
-- reading of the answer is an argument.
use Prim.Native.String.{◌++◌}
use aigateway.Prelude.{
  ℕ, ◌+◌, String, Bool, true, false, not, Option, none, some, List, [], ◌∷◌, str_eq, if◌then◌else◌,
}
use aigateway.Prelude.Dict.{Dict, insert}
use aigateway.Types.{ℤ, pos, Message, ChatCompletionRequest, ChatCompletionResponse, Model}
use aigateway.Provider.Client.{
  Result, ok, ◌>>=◌, Bytes, Library, send, receive, models_of, default_timeout, answer_choices,
}

pub record AnthropicProvider : Type 0 where
  pub name : String
  pub base_url : String
  pub api_key : String
  pub models : List String
  pub timeout : ℕ

pub record AnthropicMessage : Type 0 where
  pub role : String
  pub content : String

pub record AnthropicRequest : Type 0 where
  pub model : String
  pub max_tokens : ℤ
  pub messages : List AnthropicMessage
  pub stream : Bool

pub record AnthropicContentBlock : Type 0 where
  pub type : String
  pub text : String

pub record AnthropicUsage : Type 0 where
  pub input_tokens : ℕ
  pub output_tokens : ℕ

pub record AnthropicResponse : Type 0 where
  pub id : String
  pub type : String
  pub role : String
  pub content : List AnthropicContentBlock
  pub model : String
  pub usage : AnthropicUsage

unfoldable pub new_anthropic_provider :
    (String → String) → String → String → String → List String → ℕ → AnthropicProvider
new_anthropic_provider getenv name base_url api_key_env models timeout = record {
  name = name;
  base_url = base_url;
  api_key = getenv api_key_env;
  models = models;
  timeout = default_timeout timeout;
}

-- The loop over the messages.
unfoldable pub translate_messages : List Message → List AnthropicMessage
translate_messages [] = []
translate_messages (m ∷ ms) =
    let rest = translate_messages ms in
    if str_eq m.role "system" then rest else record { role = m.role; content = m.content } ∷ rest

abbrev or_1024 : Option ℤ → ℤ
or_1024 none = pos 1024
or_1024 (some n) = n

unfoldable pub translate_request : ChatCompletionRequest → AnthropicRequest
unfolding translate_messages
translate_request req = record {
  model = req.model;
  max_tokens = or_1024 req.max_tokens;
  messages = translate_messages req.messages;
  stream = false;
}

-- The loop over the blocks of the answer, after the content so far.
unfoldable pub text_of : String → List AnthropicContentBlock → String
text_of content [] = content
text_of content (block ∷ blocks) =
    text_of (if str_eq block.type "text" then content ++ block.text else content) blocks

unfoldable pub translate_response : ℕ → AnthropicResponse → String → ChatCompletionResponse
unfolding text_of
translate_response now resp model = record {
  id = resp.id;
  object = "chat.completion";
  created = now;
  model = model;
  choices = answer_choices (text_of "" resp.content);
  usage = record {
    prompt_tokens = resp.usage.input_tokens;
    completion_tokens = resp.usage.output_tokens;
    total_tokens = resp.usage.input_tokens + resp.usage.output_tokens;
  };
}

module _ (lib : Library AnthropicRequest AnthropicResponse) (a : AnthropicProvider) where
  abbrev pub headers : Bytes → Dict String
  headers body =
      insert "anthropic-version" "2023-06-01"
        (insert "x-api-key" a.api_key (insert "Content-Type" "application/json" []))

  unfoldable pub chat_completion : ℕ → ChatCompletionRequest → Result ChatCompletionResponse
  unfolding translate_request translate_response send receive
  chat_completion now req = do
    resp ← send lib (a.base_url ++ "/messages") headers (translate_request req)
    anth_resp ← receive lib resp
    ok (translate_response now anth_resp req.model)

  -- The body of the answer is passed on as it is.
  unfoldable pub chat_completion_stream : ChatCompletionRequest → Result Bytes
  unfolding translate_request send
  chat_completion_stream req = do
    resp ←
        send lib (a.base_url ++ "/messages") headers
          (record (translate_request req) { stream = true })
    ok resp.body

  unfoldable pub list_models : List Model
  unfolding models_of
  list_models = models_of a.name a.models

  unfoldable pub healthy : Bool
  healthy = not (str_eq a.api_key "")
