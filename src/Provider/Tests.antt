-- ===== src/Provider/Tests.antt =====
-- Runs of the adapters, and the theorems at them.
use aigateway.Prelude.{
  ◌≡◌, refl, ◌↔◌, inl, inr, String, true, false, Option, none, some, List, [], ◌∷◌, map, str_eq,
  if◌then◌else◌,
}
use aigateway.Types.{ChatCompletionRequest, ChatCompletionResponse}
use aigateway.Float.Whole.{whole}
use aigateway.Gateway.{parse}
use aigateway.Gateway.Sample.{hello, answer, service, request}
use aigateway.Provider.Client.{ok, Library, chunk_of, final_events, print_event, estimate_tokens}
use aigateway.Provider.OpenAi
use aigateway.Provider.OpenAi.{OpenAiProvider, new_groq_provider, new_openai_provider}
use aigateway.Provider.Anthropic
use aigateway.Provider.Anthropic.{AnthropicProvider, AnthropicResponse, translate_response, text_of}
use aigateway.Provider.Bedrock
use aigateway.Provider.Bedrock.{BedrockProvider, BedrockResponse, Signer, Moments}
use aigateway.Provider.Gemini
use aigateway.Provider.Gemini.{GeminiResponse, Read, read, more, eof}
use aigateway.Provider.Ollama.{OllamaChatResponse, answer_of}
use aigateway.Provider.Mock
use aigateway.Provider.Streams.{
  IsStream, made, line_texts, read_texts, reaches_eof, gemini-IsStream, content_of,
}
use aigateway.Provider.Translation.{without_system, system_prompt_lost, AreTurns, gemini_turns}
use aigateway.Provider.Answers.{IsAnswered, chat_completion_exact}
use aigateway.Provider.Counts.{IsAnswerOf, ollama-IsAnswerOf}
use aigateway.Provider.Agreement.{StreamsAs, bedrock_stream_agrees}

-- Libraries whose vendor answers every request with the status 200 and a body that decodes to `r`.
abbrev answering : {Q R : Type 0} → R → Library Q R
answering r = record {
  marshal = λ q. ok [];
  new_request = λ out. ok out;
  client_do = λ out. ok record { status_code = 200; body = [] };
  decode = λ bytes. ok r;
  to_text = λ bytes. "";
  decimal = λ n. "200";
}

abbrev anthropic : AnthropicProvider
anthropic = record {
  name = "anthropic";
  base_url = "https://api.anthropic.com/v1";
  api_key = "key";
  models = [];
  timeout = 0;
}

abbrev anthropic_response : AnthropicResponse
anthropic_response = record {
  id = "1";
  type = "message";
  role = "assistant";
  content =
      record { type = "text"; text = "Hel" }
      ∷ record { type = "tool_use"; text = "?" }
      ∷ record { type = "text"; text = "lo" }
      ∷ [];
  model = "claude";
  usage = record { input_tokens = 3; output_tokens = 2 };
}

abbrev bedrock : BedrockProvider
bedrock = record {
  name = "bedrock";
  region = "us-east-1";
  access_key = "a";
  secret_key = "s";
  models = [];
  timeout = 0;
}

abbrev bedrock_response : BedrockResponse
bedrock_response = record {
  message = record {
    role = "assistant";
    content = record { text = "Hel" } ∷ record { text = "lo" } ∷ [];
  };
  stop_reason = "end_turn";
  usage = record { input_tokens = 3; output_tokens = 2; total_tokens = 5 };
}

abbrev signer : Signer
signer = record {
  sha256_hex = λ bytes. "";
  bytes_of = λ text. [];
  hmac_sha256 = λ key data'. key;
  to_hex = λ bytes. "";
  host_of = λ url. "";
  path_of = λ url. "";
  query_of = λ url. "";
  datestamp = "20240101";
  amzdate = "20240101T000000Z";
}

abbrev moments : Moments
moments = record { id = "b1"; now = 5; stream_id = "b2"; chunk_at = 6; final_at = 7 }

abbrev openai : OpenAiProvider
openai = record {
  name = "openai";
  base_url = "https://api.openai.com/v1";
  api_key = "key";
  models = [];
  timeout = 0;
  max_retries = 2;
}

-- The blocks that are no text are left out.
joined_text :
    (translate_response 5 anthropic_response "claude").choices
    ≡ record {
      index = 0;
      message = record { role = "assistant"; content = "Hello" };
      finish_reason = "stop";
    }
      ∷ []
unfolding translate_response text_of
joined_text = refl

chat_completion_exact_example :
    ((Anthropic.chat_completion (answering anthropic_response) anthropic 5 hello ≡ ok answer)
      ↔ IsAnswered
          (answering anthropic_response)
          "https://api.anthropic.com/v1/messages"
          (Anthropic.headers (answering anthropic_response) anthropic)
          (Anthropic.translate_request hello)
          (λ r. Anthropic.translate_response 5 r hello.model)
          answer)
    × ((Bedrock.chat_completion (answering bedrock_response) signer bedrock moments hello
          ≡ ok answer)
        ↔ IsAnswered
            (answering bedrock_response)
            (Bedrock.address (answering bedrock_response) signer bedrock hello.model)
            (Bedrock.headers (answering bedrock_response) signer bedrock hello.model)
            (Bedrock.translate_request hello)
            (λ r. Bedrock.translate_response "b1" 5 r hello.model)
            answer)
    × ((OpenAi.chat_completion (answering answer) openai hello ≡ ok answer)
        ↔ IsAnswered
            (answering answer)
            "https://api.openai.com/v1/chat/completions"
            (OpenAi.bearer "key")
            hello
            (λ r. r)
            answer)
chat_completion_exact_example =
    chat_completion_exact (answering anthropic_response) anthropic (answering bedrock_response)
      signer bedrock (answering answer) openai 5 moments hello answer

abbrev ollama_response : OllamaChatResponse
ollama_response = record {
  model = "llama3";
  message = record { role = "assistant"; content = "hello, too" };
  done = true;
  prompt_eval_count = 0;
  eval_count = 3;
}

ollama-IsAnswerOf_example :
    (reply : ChatCompletionResponse) × (answer_of "o1" 5 ollama_response hello ≡ ok reply)
    × IsAnswerOf ollama_response hello reply
unfolding parse
ollama-IsAnswerOf_example =
    ollama-IsAnswerOf whole service request [] hello "o1" 5 ollama_response refl

-- A conversation with a system prompt.
abbrev prompted : ChatCompletionRequest
prompted = record hello {
  messages = record { role = "system"; content = "be brief" } ∷ hello.messages;
}

system_prompt_lost_example :
    (Anthropic.translate_request (without_system prompted) ≡ Anthropic.translate_request prompted)
    × (Bedrock.translate_request (without_system prompted) ≡ Bedrock.translate_request prompted)
    × ((Anthropic.translate_request prompted).messages
        ≡ map
            (λ m. record { role = m.role; content = m.content })
            (without_system prompted).messages)
    × ((Bedrock.translate_request prompted).messages
        ≡ map
            (λ m. record { role = m.role; content = record { text = m.content } ∷ [] })
            (without_system prompted).messages)
system_prompt_lost_example = system_prompt_lost prompted

gemini_turns_example : AreTurns prompted.messages (Gemini.translate_request prompted).contents
gemini_turns_example = gemini_turns prompted (inl refl, (inr (inl refl), tt))

-- The first read decodes, the second does not, the third is the end.
abbrev reads : List Read
reads = read (some "data: {1}") more ∷ read (some "{2") more ∷ read none eof ∷ []

abbrev one_line : String → Option GeminiResponse
one_line line =
    if str_eq line "{1}"
    then some record {
      candidates =
          record {
            content = record { role = "model"; parts = record { text = "hi" } ∷ [] };
            finish_reason = "";
          }
          ∷ [];
      usage_metadata = none;
    }
    else none

what_is_read : read_texts one_line (made reads) ≡ "hi" ∷ []
unfolding read_texts made line_texts Gemini.text_of
what_is_read = refl

gemini-IsStream_example :
    IsStream "g1" "gemini"
      (Gemini.relay_stream one_line "g1" "gemini" (λ i. i) 0 reads)
      (read_texts one_line (made reads))
      (reaches_eof reads)
gemini-IsStream_example = gemini-IsStream "g1" "gemini" (λ i. i) one_line 0 reads

bedrock_stream_agrees_example :
    StreamsAs "b2" hello.model
      (Bedrock.chat_completion (answering bedrock_response) signer bedrock moments hello)
      (Bedrock.chat_completion_stream (answering bedrock_response) signer bedrock moments hello)
bedrock_stream_agrees_example =
    bedrock_stream_agrees (answering bedrock_response) signer bedrock moments hello

-- The end of a stream as it is written.
written :
    map (print_event (λ chunk. chunk.object)) (final_events "1" 5 "m")
    ≡ "data: chat.completion.chunk\n\n" ∷ "data: [DONE]\n\n" ∷ []
unfolding print_event final_events chunk_of
written = refl

-- A text of three bytes counts for nothing.
short_text : estimate_tokens "abc" ≡ 0
unfolding estimate_tokens
short_text = refl

mock_contents :
    content_of
      (Mock.chat_completion_stream (λ t. t) (λ t. "a" ∷ "b" ∷ []) (λ _. false) "m1" (λ i. i) hello)
    ≡ "a b"
unfolding content_of Mock.chat_completion_stream Mock.stream_words Mock.reply_of final_events
    chunk_of
mock_contents = refl

groq_models :
    (new_groq_provider (λ env. "k") "groq" "GROQ_KEY" [] 0).models
    ≡ "llama-3.3-70b-versatile" ∷ "llama-3.1-8b-instant" ∷ "mixtral-8x7b-32768" ∷ []
unfolding new_groq_provider new_openai_provider
groq_models = refl
