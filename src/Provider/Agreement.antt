-- ===== src/Provider/Agreement.antt =====
-- internal/provider/bedrock.go: a streamed answer beside the answer as a whole.
use aigateway.Prelude.{◌≡◌, refl, sym, ap, subst, String, true, List, [], ◌∷◌}
use aigateway.Types.{ChatCompletionRequest, ChatCompletionResponse}
use aigateway.Provider.Client.{
  Result, ok, err, panics, ◌>>=◌, Library, Event, data_event, chunk_of, final_events,
  answer_choices,
}
use aigateway.Provider.Bedrock.{
  BedrockRequest, BedrockResponse, BedrockProvider, Signer, Moments, headers, address, text_of,
  translate_request, translate_response, stream_of, chat_completion, chat_completion_stream,
}
use aigateway.Provider.Streams.{IsStream, piece, ended}
use aigateway.Provider.Answers.{answered}

-- A stream beside the answer to the same request: one chunk with the content of the answer's only
-- choice, and the end; the same error; or the same panic.
pub data StreamsAs (id model : String)
    : Result ChatCompletionResponse → Result (List Event) → Type 0 where
  answered_as :
      (answer : ChatCompletionResponse) (text : String) (es : List Event)
      → answer.choices ≡ answer_choices text
      → IsStream id model es (text ∷ []) true
      → StreamsAs id model (ok answer) (ok es)
  failed_as : (e : String) → StreamsAs id model (err e) (err e)
  panicked_as : StreamsAs id model panics panics

module _ (lib : Library BedrockRequest BedrockResponse) (s : Signer) (b : BedrockProvider)
    (at : Moments) (req : ChatCompletionRequest) where
  answer-choices :
      (answer : ChatCompletionResponse)
      → chat_completion lib s b at req ≡ ok answer
      → (vendor : BedrockResponse) × (answer_choices (text_of "" vendor.message.content)
          ≡ answer.choices)
  unfolding chat_completion translate_response
  answer-choices answer h =
      let call =
        answered lib (address lib s b req.model) (headers lib s b req.model) (translate_request req)
          (λ r. translate_response at.id at.now r req.model) answer h in
      (call.vendor, ap (λ a. a.choices) call.translated)

  streams_as :
      (run : Result ChatCompletionResponse)
      → chat_completion lib s b at req ≡ run
      → StreamsAs at.stream_id req.model run (run >>= stream_of lib s b at req)
  streams_as (err e) h = failed_as e
  streams_as panics h = panicked_as
  streams_as (ok answer) h =
      let (vendor, choices) = answer-choices answer h in
      let text = text_of "" vendor.message.content in
      let es : List Event =
        data_event (chunk_of at.stream_id at.chunk_at req.model text "")
        ∷ final_events at.stream_id at.final_at req.model in
      subst (StreamsAs at.stream_id req.model (ok answer))
        (ap (λ cs. stream_of lib s b at req (record answer { choices = cs })) choices)
        (answered_as answer text es (sym choices) (
          piece at.chunk_at text (final_events at.stream_id at.final_at req.model) [] true
            (ended at.final_at)))

  -- Bedrock streams exactly when it answers: where it answers, the stream is one chunk with the content
  -- of the answer's only choice, and is ended; where it fails, the stream fails with the same error.
  pub bedrock_stream_agrees :
      StreamsAs at.stream_id req.model
        (chat_completion lib s b at req)
        (chat_completion_stream lib s b at req)
  unfolding chat_completion_stream
  bedrock_stream_agrees = streams_as (chat_completion lib s b at req) refl
