-- ===== src/Provider/Bedrock.antt =====
-- internal/provider/bedrock.go. SHA-256 and HMAC with their hexadecimal forms, the parts of
-- an address and the two forms of the date are parameters, and so are the clock readings.
use Prim.Native.String.{◌++◌}
use aigateway.Prelude.{
  ℕ, String, Bool, not, ◌&&◌, Option, none, some, List, [], ◌∷◌, str_eq, if◌then◌else◌,
}
use aigateway.Prelude.Dict.{Dict, insert}
use aigateway.Types.{
  ℤ, FloatBits, Message, Choice, ChatCompletionRequest, ChatCompletionResponse, Model,
}
use aigateway.Provider.Client.{
  Result, ok, panics, ◌>>=◌, Bytes, Library, send, receive, models_of, default_timeout,
  answer_choices, Event, data_event, chunk_of, final_events,
}

pub record BedrockProvider : Type 0 where
  pub name : String
  pub region : String
  pub access_key : String
  pub secret_key : String
  pub models : List String
  pub timeout : ℕ

pub record BedrockContent : Type 0 where
  pub text : String

pub record BedrockMessage : Type 0 where
  pub role : String
  pub content : List BedrockContent

pub record BedrockInferenceConfig : Type 0 where
  pub max_tokens : Option ℤ
  pub temperature : Option FloatBits
  pub top_p : Option FloatBits

pub record BedrockRequest : Type 0 where
  pub messages : List BedrockMessage
  pub inference_config : Option BedrockInferenceConfig

pub record BedrockUsage : Type 0 where
  pub input_tokens : ℕ
  pub output_tokens : ℕ
  pub total_tokens : ℕ

pub record BedrockResponse : Type 0 where
  pub message : BedrockMessage
  pub stop_reason : String
  pub usage : BedrockUsage

unfoldable pub new_bedrock_provider :
    (String → String) → String → String → String → String → List String → ℕ → BedrockProvider
new_bedrock_provider getenv name region access_key_env secret_key_env models timeout = record {
  name = name;
  region = if str_eq region "" then "us-east-1" else region;
  access_key = getenv access_key_env;
  secret_key = getenv secret_key_env;
  models = models;
  timeout = default_timeout timeout;
}

unfoldable pub translate_messages : List Message → List BedrockMessage
translate_messages [] = []
translate_messages (m ∷ ms) =
    let rest = translate_messages ms in
    if str_eq m.role "system"
    then rest
    else record { role = m.role; content = record { text = m.content } ∷ [] } ∷ rest

abbrev inference_config : ChatCompletionRequest → Option BedrockInferenceConfig
inference_config req =
    let c : BedrockInferenceConfig = record {
      max_tokens = req.max_tokens;
      temperature = req.temperature;
      top_p = req.top_p;
    } in
    elim req.temperature [
      | some t ↦ some c
      | none ↦ elim req.max_tokens [
        | some n ↦ some c
        | none ↦ elim req.top_p [ some p ↦ some c | none ↦ none ]
      ]
    ]

unfoldable pub translate_request : ChatCompletionRequest → BedrockRequest
unfolding translate_messages
translate_request req = record {
  messages = translate_messages req.messages;
  inference_config = inference_config req;
}

-- The loop over the contents of the answer, after the content so far.
unfoldable pub text_of : String → List BedrockContent → String
text_of content [] = content
text_of content (c ∷ cs) = text_of (content ++ c.text) cs

unfoldable pub translate_response : String → ℕ → BedrockResponse → String → ChatCompletionResponse
unfolding text_of
translate_response id now resp model = record {
  id = id;
  object = "chat.completion";
  created = now;
  model = model;
  choices = answer_choices (text_of "" resp.message.content);
  usage = record {
    prompt_tokens = resp.usage.input_tokens;
    completion_tokens = resp.usage.output_tokens;
    total_tokens = resp.usage.total_tokens;
  };
}

-- The hashes, on texts and on bytes, the parts of an address (net/url), and the date as the
-- signature writes it.
pub record Signer : Type 0 where
  pub sha256_hex : Bytes → String
  pub bytes_of : String → Bytes
  pub hmac_sha256 : Bytes → Bytes → Bytes
  pub to_hex : Bytes → String
  pub host_of : String → String
  pub path_of : String → String
  pub query_of : String → String
  pub datestamp : String
  pub amzdate : String

module _ (s : Signer) (b : BedrockProvider) where
  abbrev lines : List String → String
  lines [] = ""
  lines (l ∷ []) = l
  lines (l ∷ m ∷ ls) = l ++ ("\n" ++ lines (m ∷ ls))

  abbrev scope : String
  scope = s.datestamp ++ ("/" ++ (b.region ++ "/bedrock/aws4_request"))

  abbrev signed_headers : String
  signed_headers = "content-type;host;x-amz-content-sha256;x-amz-date"

  -- Of the request made for an address.
  unfoldable canonical_request : String → String → String
  canonical_request url payload_hash = lines (
      "POST"
      ∷ s.path_of url
      ∷ s.query_of url
      ∷ ("content-type:application/json\nhost:"
          ++ (s.host_of url
              ++ ("\nx-amz-content-sha256:"
                  ++ (payload_hash ++ ("\nx-amz-date:" ++ (s.amzdate ++ "\n"))))))
      ∷ signed_headers
      ∷ payload_hash
      ∷ [])

  unfoldable signing_key : Bytes
  signing_key =
      s.hmac_sha256
        (s.hmac_sha256
          (s.hmac_sha256
            (s.hmac_sha256 (s.bytes_of ("AWS4" ++ b.secret_key)) (s.bytes_of s.datestamp))
            (s.bytes_of b.region))
          (s.bytes_of "bedrock"))
        (s.bytes_of "aws4_request")

  unfoldable signature : String → String
  unfolding signing_key
  signature canonical = s.to_hex (
      s.hmac_sha256 signing_key (
        s.bytes_of (
          "AWS4-HMAC-SHA256\n"
          ++ (s.amzdate ++ ("\n" ++ (scope ++ ("\n" ++ s.sha256_hex (s.bytes_of canonical))))))))

  -- The headers that are added.
  unfoldable pub sign_request : String → Bytes → Dict String → Dict String
  unfolding canonical_request signature
  sign_request url payload headers =
      let payload_hash = s.sha256_hex payload in
      insert "Authorization"
        ("AWS4-HMAC-SHA256 Credential="
          ++ (b.access_key
              ++ ("/"
                  ++ (scope
                      ++ (", SignedHeaders="
                          ++ (signed_headers
                              ++ (", Signature="
                                  ++ signature (canonical_request url payload_hash))))))))
        (insert "X-Amz-Content-Sha256" payload_hash (insert "X-Amz-Date" s.amzdate headers))

-- The moments of a call and of the stream made from it: one ID and one clock reading for the
-- answer, one ID and two readings for the stream.
pub record Moments : Type 0 where
  pub id : String
  pub now : ℕ
  pub stream_id : String
  pub chunk_at : ℕ
  pub final_at : ℕ

-- `resp.Choices[0].Message.Content`
abbrev first_content : List Choice → Result String
first_content [] = panics
first_content (c ∷ cs) = ok c.message.content

module _ (lib : Library BedrockRequest BedrockResponse) (s : Signer) (b : BedrockProvider) where
  abbrev pub address : String → String
  address model =
      "https://bedrock-runtime."
      ++ (b.region ++ (".amazonaws.com/model/" ++ (model ++ "/converse")))

  abbrev pub headers : String → Bytes → Dict String
  headers model body =
      sign_request s b (address model) body (insert "Content-Type" "application/json" [])

  unfoldable pub chat_completion : Moments → ChatCompletionRequest → Result ChatCompletionResponse
  unfolding translate_request translate_response send receive sign_request
  chat_completion at req = do
    resp ← send lib (address req.model) (headers req.model) (translate_request req)
    br_resp ← receive lib resp
    ok (translate_response at.id at.now br_resp req.model)

  -- The answer as a whole, in one chunk.
  abbrev pub stream_of :
      Moments → ChatCompletionRequest → ChatCompletionResponse → Result (List Event)
  stream_of at req resp = do
    content ← first_content resp.choices
    ok (
        data_event (chunk_of at.stream_id at.chunk_at req.model content "")
        ∷ final_events at.stream_id at.final_at req.model)

  unfoldable pub chat_completion_stream : Moments → ChatCompletionRequest → Result (List Event)
  unfolding chat_completion chunk_of final_events
  chat_completion_stream at req = do resp ← chat_completion at req; stream_of at req resp

unfoldable pub list_models : BedrockProvider → List Model
unfolding models_of
list_models b = models_of b.name b.models

unfoldable pub healthy : BedrockProvider → Bool
healthy b = not (str_eq b.access_key "") && not (str_eq b.secret_key "")
