-- ===== src/Provider/Counts.antt =====
-- What internal/provider/ollama.go makes of an answer, for a request that internal/gateway/handler.go
-- has parsed; and the estimate of tokens.
use Prim.Native.String.{len}
use aigateway.Prelude.{
  ◌≡◌, refl, ap, ◌≢◌, ◌⊎◌, inl, inr, ℕ, ◌+◌, ◌*◌, ◌≤◌, ◌<◌, String, List, [], ◌∷◌, ◌==◌, arith,
  Bool-cases,
}
use aigateway.Float.{Float64}
use aigateway.Types.{Message, ChatCompletionRequest, ChatCompletionResponse}
use aigateway.Middleware.Http.{HttpRequest, Headers, go}
use aigateway.Gateway.{Service, parse}
use aigateway.Provider.Client.{ok, ◌>>=◌, estimate_tokens, answer_choices}
use aigateway.Provider.Ollama

-- The estimate of a text is a quarter of its length in bytes, and what it loses is less than four.
estimate_tokens-bounds :
    (text : String)
    → (estimate_tokens text * 4 ≤ len text) × (len text < estimate_tokens text * 4 + 4)
unfolding estimate_tokens
estimate_tokens-bounds text = ground arith

last_content-total :
    (ms : List Message) → ms ≢ [] → (text : String) × (Ollama.last_content ms ≡ ok text)
unfolding Ollama.last_content
last_content-total [] h = absurd (h refl)
last_content-total (m ∷ []) h = (m.content, refl)
last_content-total (m ∷ (m' ∷ ms)) h = last_content-total (m' ∷ ms) (λ e. cc)

prompt_tokens_of-total :
    (count : ℕ) (ms : List Message)
    → ms ≢ []
    → (n : ℕ) × (Ollama.prompt_tokens_of count ms ≡ ok n) × ((n ≡ count) ⊎ (count ≡ 0))
prompt_tokens_of-total count ms h =
    let (text, found) = last_content-total ms h in
    elim (Bool-cases (count == 0)) [
      | inl zero ↦ (estimate_tokens text, ground (arith, zero, found), inr (ground (arith, zero)))
      | inr some' ↦ (count, ground (arith, some'), inl refl)
    ]

completion_tokens_of-count :
    (count : ℕ) (content : String)
    → (Ollama.completion_tokens_of count content ≡ count) ⊎ (count ≡ 0)
completion_tokens_of-count count content = ground arith

-- A request that the gateway has parsed holds messages.
parse-messages :
    (fl : Float64) {C : Type 0} (svc : Service fl C) (r : HttpRequest) (headers : Headers)
    (req : ChatCompletionRequest)
    → parse fl svc r headers ≡ go req
    → req.messages ≢ []
unfolding parse
parse-messages fl svc r headers req h = ground arith

-- What Ollama's adapter makes of an answer of the vendor.
pub record IsAnswerOf (resp : Ollama.OllamaChatResponse) (req : ChatCompletionRequest)
    (answer : ChatCompletionResponse) : Type 0 where
  pub model : answer.model ≡ req.model
  pub choices : answer.choices ≡ answer_choices resp.message.content
  pub prompt : (answer.usage.prompt_tokens ≡ resp.prompt_eval_count) ⊎ (resp.prompt_eval_count ≡ 0)
  pub completion : (answer.usage.completion_tokens ≡ resp.eval_count) ⊎ (resp.eval_count ≡ 0)
  pub total :
      answer.usage.total_tokens ≡ answer.usage.prompt_tokens + answer.usage.completion_tokens

-- For a request that the gateway has parsed, Ollama's adapter answers with whatever the vendor
-- answered, and does not panic: the model is that of the request, the only choice has the content,
-- counts other than 0 are passed on, and the total is their sum.
pub ollama-IsAnswerOf :
    (fl : Float64) {C : Type 0} (svc : Service fl C) (r : HttpRequest) (headers : Headers)
    (req : ChatCompletionRequest) (id : String) (now : ℕ) (resp : Ollama.OllamaChatResponse)
    → parse fl svc r headers ≡ go req
    → (answer : ChatCompletionResponse) × (Ollama.answer_of id now resp req ≡ ok answer)
      × IsAnswerOf resp req answer
unfolding Ollama.answer_of
ollama-IsAnswerOf fl svc r headers req id now resp parsed =
    let (n, found, same) =
      prompt_tokens_of-total resp.prompt_eval_count req.messages
        (parse-messages fl svc r headers req parsed) in
    (
      Ollama.answer_with id now resp req n,
      ap (λ p. p >>= λ tokens. ok (Ollama.answer_with id now resp req tokens)) found,
      record {
        model = refl;
        choices = refl;
        prompt = same;
        completion = completion_tokens_of-count resp.eval_count resp.message.content;
        total = refl;
      },
    )
