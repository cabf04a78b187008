-- ===== src/Provider/Gemini.antt =====
-- internal/provider/gemini.go. The readings of the clock are arguments. A stream is what its reads
-- return: bytes, if any came, and how the read ended.
use Prim.Native.String.{◌++◌, len, slice}
use text.Mathlib.Text.{starts_with}
use aigateway.Prelude.{
  ℕ, ◌+◌, String, Bool, not, ◌&&◌, ltb, Option, none, some, List, [], ◌∷◌, ◌++◌ as ◌+++◌, str_eq,
  if◌then◌else◌,
}
use aigateway.Prelude.Dict.{Dict, insert}
use aigateway.Types.{
  ℤ, FloatBits, Message, Usage, ChatCompletionRequest, ChatCompletionResponse, Model,
}
use aigateway.Provider.Client.{
  Result, ok, ◌>>=◌, Bytes, Library, send, receive, models_of, default_timeout, answer_choices,
  Event, data_event, chunk_of, final_events,
}

pub record GeminiProvider : Type 0 where
  pub name : String
  pub base_url : String
  pub api_key : String
  pub models : List String
  pub timeout : ℕ

pub record GeminiPart : Type 0 where
  pub text : String

pub record GeminiContent : Type 0 where
  pub role : String
  pub parts : List GeminiPart

pub record GeminiGenerationConfig : Type 0 where
  pub temperature : Option FloatBits
  pub max_tokens : Option ℤ
  pub top_p : Option FloatBits

pub record GeminiRequest : Type 0 where
  pub contents : List GeminiContent
  pub generation_config : Option GeminiGenerationConfig

pub record GeminiCandidate : Type 0 where
  pub content : GeminiContent
  pub finish_reason : String

pub record GeminiUsage : Type 0 where
  pub prompt_token_count : ℕ
  pub candidates_token_count : ℕ
  pub total_token_count : ℕ

pub record GeminiResponse : Type 0 where
  pub candidates : List GeminiCandidate
  pub usage_metadata : Option GeminiUsage

abbrev or_models : List String → List String
or_models [] = "gemini-2.0-flash" ∷ "gemini-1.5-pro" ∷ []
or_models (m ∷ ms) = m ∷ ms

unfoldable pub new_gemini_provider :
    (String → String) → String → String → List String → ℕ → GeminiProvider
new_gemini_provider getenv name api_key_env models timeout = record {
  name = name;
  base_url = "https://generativelanguage.googleapis.com/v1beta";
  api_key = getenv api_key_env;
  models = or_models models;
  timeout = default_timeout timeout;
}

unfoldable pub translate_role : String → String
translate_role role =
    if str_eq role "assistant" then "model" else if str_eq role "system" then "user" else role

unfoldable pub translate_contents : List Message → List GeminiContent
unfolding translate_role
translate_contents [] = []
translate_contents (m ∷ ms) =
    record { role = translate_role m.role; parts = record { text = m.content } ∷ [] }
    ∷ translate_contents ms

-- The configuration is sent if one of its three values is set; Bedrock does the same.
abbrev generation_config : ChatCompletionRequest → Option GeminiGenerationConfig
generation_config req =
    let c : GeminiGenerationConfig = record {
      temperature = req.temperature;
      max_tokens = req.max_tokens;
      top_p = req.top_p;
    } in
    elim req.temperature [
      | some t ↦ some c
      | none ↦ elim req.max_tokens [
        | some n ↦ some c
        | none ↦ elim req.top_p [ some p ↦ some c | none ↦ none ]
      ]
    ]

unfoldable pub translate_request : ChatCompletionRequest → GeminiRequest
unfolding translate_contents
translate_request req = record {
  contents = translate_contents req.messages;
  generation_config = generation_config req;
}

-- The loop over the parts, after the content so far.
unfoldable pub text_of : String → List GeminiPart → String
text_of content [] = content
text_of content (part ∷ parts) = text_of (content ++ part.text) parts

abbrev first_text : List GeminiCandidate → String
first_text [] = ""
first_text (c ∷ cs) = text_of "" c.content.parts

abbrev usage_of : Option GeminiUsage → Usage
usage_of none = record { prompt_tokens = 0; completion_tokens = 0; total_tokens = 0 }
usage_of (some u) = record {
  prompt_tokens = u.prompt_token_count;
  completion_tokens = u.candidates_token_count;
  total_tokens = u.total_token_count;
}

-- `finishReason` is "stop" whatever the candidate says.
unfoldable pub translate_response : String → ℕ → GeminiResponse → String → ChatCompletionResponse
unfolding text_of
translate_response id now resp model = record {
  id = id;
  object = "chat.completion";
  created = now;
  model = model;
  choices = answer_choices (first_text resp.candidates);
  usage = usage_of resp.usage_metadata;
}

pub data ReadEnd : Type 0 where
  more eof broken : ReadEnd

pub data Read : Type 0 where
  read : Option String → ReadEnd → Read

-- `unmarshal` is encoding/json, on the line without its prefix.
abbrev pub strip_data : String → String
strip_data line =
    if ltb 6 (len line) && starts_with line "data: " then slice line 6 (len line) else line

module _ (unmarshal : String → Option GeminiResponse) (id model : String) (clock : ℕ → ℕ) where
  -- The chunk of one read, with the clock at its reading `i`.
  abbrev pub relay_candidates : ℕ → List GeminiCandidate → List Event
  relay_candidates i [] = []
  relay_candidates i (c ∷ cs) =
      data_event (chunk_of id (clock i) model (text_of "" c.content.parts) "") ∷ []

  abbrev pub relay_decoded : ℕ → Option GeminiResponse → List Event
  relay_decoded i none = []
  relay_decoded i (some resp) = relay_candidates i resp.candidates

  unfoldable pub relay_line : ℕ → Option String → List Event
  unfolding text_of chunk_of
  relay_line i none = []
  relay_line i (some line) = relay_decoded i (unmarshal (strip_data line))

  -- The loop of the stream; the reads after the one that ends it are not made.
  unfoldable pub relay_stream : ℕ → List Read → List Event
  unfolding relay_line final_events
  relay_stream i [] = []
  relay_stream i (read line more ∷ rs) = relay_line i line +++ relay_stream (i + 1) rs
  relay_stream i (read line eof ∷ rs) = relay_line i line +++ final_events id (clock (i + 1)) model
  relay_stream i (read line broken ∷ rs) = relay_line i line

module _ (lib : Library GeminiRequest GeminiResponse) (g : GeminiProvider) where
  abbrev headers : Bytes → Dict String
  headers body = insert "Content-Type" "application/json" []

  abbrev address : String → String → String
  address model method = g.base_url ++ ("/models/" ++ (model ++ (method ++ g.api_key)))

  unfoldable pub chat_completion :
      String → ℕ → ChatCompletionRequest → Result ChatCompletionResponse
  unfolding translate_request translate_response send receive
  chat_completion id now req = do
    resp ← send lib (address req.model ":generateContent?key=") headers (translate_request req)
    gem_resp ← receive lib resp
    ok (translate_response id now gem_resp req.model)

  -- `reads` are the reads of the body of the answer.
  unfoldable pub chat_completion_stream :
      (String → Option GeminiResponse)
      → (Bytes → List Read)
      → String
      → (ℕ → ℕ)
      → ChatCompletionRequest
      → Result (List Event)
  unfolding translate_request send relay_stream
  chat_completion_stream unmarshal reads id clock req = do
    resp ←
        send lib (address req.model ":streamGenerateContent?key=" ++ "&alt=sse") headers
          (translate_request req)
    ok (relay_stream unmarshal id req.model clock 0 (reads resp.body))

  unfoldable pub list_models : List Model
  unfolding models_of
  list_models = models_of g.name g.models

  unfoldable pub healthy : Bool
  healthy = not (str_eq g.api_key "")
