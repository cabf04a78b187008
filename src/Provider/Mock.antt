-- ===== src/Provider/Mock.antt =====
-- internal/provider/mock.go. The printing of a quoted text (`%q`), the words of a text
-- (strings.Fields), the readings of the clock and what cancels the request are parameters.
use Prim.Native.String.{◌++◌}
use aigateway.Prelude.{
  ℕ, ◌+◌, String, Bool, Option, none, some, List, [], ◌∷◌, ltb, str_eq, if◌then◌else◌,
}
use aigateway.Types.{Message, ChatCompletionRequest, ChatCompletionResponse, Model}
use aigateway.Provider.Client.{
  Result, ok, err, answer_choices, estimate_tokens, Event, data_event, chunk_of, final_events,
}

pub record MockProvider : Type 0 where
  pub name : String
  pub latency : ℕ

abbrev pub new_mock_provider : String → ℕ → MockProvider
new_mock_provider name latency = record { name = name; latency = latency }

-- The loop that leaves the last user message, after the one so far.
unfoldable pub user_message : String → List Message → String
user_message found [] = found
user_message found (m ∷ ms) = user_message (if str_eq m.role "user" then m.content else found) ms

module _ (quote : String → String) where
  unfoldable pub reply_of : String → List Message → String
  unfolding user_message
  reply_of greeting ms = greeting ++ (" You said: " ++ quote (user_message "" ms))

  unfoldable pub answer_of : String → ℕ → ChatCompletionRequest → ChatCompletionResponse
  unfolding reply_of user_message estimate_tokens
  answer_of id now req =
      let reply = reply_of "This is a mock response from AegisFlow." req.messages in
      let prompt_tokens = estimate_tokens (user_message "" req.messages) in
      let completion_tokens = estimate_tokens reply in
      record {
        id = id;
        object = "chat.completion";
        created = now;
        model = req.model;
        choices = answer_choices reply;
        usage = record {
          prompt_tokens = prompt_tokens;
          completion_tokens = completion_tokens;
          total_tokens = prompt_tokens + completion_tokens;
        };
      }

  -- `cancelled` is the context's error, if it is done before the latency is over.
  unfoldable pub chat_completion :
      Option String
      → String
      → ℕ
      → MockProvider
      → ChatCompletionRequest
      → Result ChatCompletionResponse
  unfolding answer_of
  chat_completion cancelled id now m req =
      if ltb 0 m.latency
      then elim cancelled [ some e ↦ err e | none ↦ ok (answer_of id now req) ]
      else ok (answer_of id now req)

module _ (cancelled : ℕ → Bool) (id model : String) (clock : ℕ → ℕ) where
  -- A word, with a blank after it unless it is the last.
  abbrev content_of : String → List String → String
  content_of word [] = word
  content_of word (w ∷ ws) = word ++ " "

  -- The loop over the words, from word `i` on, and the end of the stream.
  unfoldable pub stream_words : ℕ → List String → List Event
  unfolding chunk_of final_events
  stream_words i [] = final_events id (clock i) model
  stream_words i (word ∷ words) =
      let rest = stream_words (i + 1) words in
      if cancelled i
      then []
      else data_event (chunk_of id (clock i) model (content_of word words) "") ∷ rest

unfoldable pub chat_completion_stream :
    (String → String)
    → (String → List String)
    → (ℕ → Bool)
    → String
    → (ℕ → ℕ)
    → ChatCompletionRequest
    → List Event
unfolding reply_of stream_words
chat_completion_stream quote fields cancelled id clock req =
    stream_words cancelled id req.model clock 0
      (fields (reply_of quote "This is a mock streaming response from AegisFlow." req.messages))

abbrev pub list_models : MockProvider → List Model
list_models m =
    record { id = "mock"; object = "model"; provider = m.name }
    ∷ record { id = "mock-fast"; object = "model"; provider = m.name }
    ∷ []
