-- ===== src/Provider/Answers.antt =====
-- When an adapter answers, and with what: internal/provider/openai.go, anthropic.go and bedrock.go.
use Prim.Native.String.{◌++◌}
use aigateway.Prelude.{◌≡◌, refl, sym, ap, ◌∙◌, ◌↔◌, ℕ, String, arith}
use aigateway.Prelude.Dict.{Dict}
use aigateway.Types.{ChatCompletionRequest, ChatCompletionResponse}
use aigateway.Provider.Client.{
  Result, ok, err, panics, ◌>>=◌, wrap, Bytes, Outgoing, Incoming, Library, send, receive,
  check_status,
}
use aigateway.Provider.OpenAi
use aigateway.Provider.Anthropic
use aigateway.Provider.Bedrock

module _ {A B : Type 0} where
  bind-ok :
      (m : Result A) (f : A → Result B) (b : B)
      → (m >>= f) ≡ ok b
      → (a : A) × (m ≡ ok a) × (f a ≡ ok b)
  bind-ok (ok a) f b h = (a, refl, h)
  bind-ok (err e) f b h = cc
  bind-ok panics f b h = cc

module _ {A : Type 0} where
  wrap-ok : (context : String) (m : Result A) (a : A) → wrap context m ≡ ok a → m ≡ ok a
  wrap-ok context (ok b) a h = h
  wrap-ok context (err e) a h = cc
  wrap-ok context panics a h = cc

  bind_pure : (m : Result A) → m ≡ (m >>= λ a. ok a)
  bind_pure (ok a) = refl
  bind_pure (err e) = refl
  bind_pure panics = refl

module _ {Q R : Type 0} (lib : Library Q R) where
  -- The call of a vendor that leads to an answer: everything succeeds, the status is 200, and the answer
  -- is the translation of what the body decodes to.
  pub record IsAnswered {A : Type 0} (url : String) (headers : Bytes → Dict String) (q : Q)
      (translate : R → A) (answer : A) : Type 0 where
    pub body : Bytes
    pub out : Outgoing
    pub resp : Incoming
    pub vendor : R
    pub marshalled : lib.marshal q ≡ ok body
    pub created :
        lib.new_request
          record { http_method = "POST"; url = url; headers = headers body; body = body }
        ≡ ok out
    pub sent : lib.client_do out ≡ ok resp
    pub accepted : resp.status_code ≡ 200
    pub decoded : lib.decode resp.body ≡ ok vendor
    pub translated : translate vendor ≡ answer

  check_status-ok :
      (resp got : Incoming)
      → check_status lib resp ≡ ok got
      → (resp.status_code ≡ 200) × (resp ≡ got)
  unfolding check_status
  check_status-ok resp got h = ground arith

  -- The steps of `send`.
  record Sent (url : String) (headers : Bytes → Dict String) (q : Q) (resp : Incoming)
      : Type 0 where
    body : Bytes
    out : Outgoing
    marshalled : lib.marshal q ≡ ok body
    created :
        lib.new_request
          record { http_method = "POST"; url = url; headers = headers body; body = body }
        ≡ ok out
    sent : lib.client_do out ≡ ok resp
    accepted : resp.status_code ≡ 200

  send-Sent :
      (url : String) (headers : Bytes → Dict String) (q : Q) (resp : Incoming)
      → send lib url headers q ≡ ok resp
      → Sent url headers q resp
  unfolding send
  send-Sent url headers q resp h =
      let (body, marshalled, h1) = bind-ok (wrap "marshaling request" (lib.marshal q)) _ resp h in
      let (out, created, h2) =
        bind-ok
          (wrap "creating request" (
            lib.new_request
              record { http_method = "POST"; url = url; headers = headers body; body = body }))
          _ resp h1 in
      let (got, sent, h3) = bind-ok (wrap "sending request" (lib.client_do out)) _ resp h2 in
      let (accepted, same) = check_status-ok got resp h3 in
      record {
        body = body;
        out = out;
        marshalled = wrap-ok _ _ body marshalled;
        created = wrap-ok _ _ out created;
        sent = wrap-ok _ _ resp (sent ∙ ap ok same);
        accepted = ap (λ r. r.status_code) (sym same) ∙ accepted;
      }

  -- A response that is not translated.
  send_receive :
      (m : Result Incoming)
      → (m >>= λ resp. receive lib resp) ≡ (m >>= λ resp. receive lib resp >>= λ r. ok r)
  send_receive (ok resp) = bind_pure (receive lib resp)
  send_receive (err e) = refl
  send_receive panics = refl

  module _ {A : Type 0} (url : String) (headers : Bytes → Dict String) (q : Q) (translate : R → A)
      (answer : A) where
    pub answered :
        (send lib url headers q >>= λ resp. receive lib resp >>= λ r. ok (translate r)) ≡ ok answer
        → IsAnswered url headers q translate answer
    unfolding send receive
    answered h =
        let (resp, sent, rest) =
          bind-ok (send lib url headers q) (λ resp. receive lib resp >>= λ r. ok (translate r))
            answer h in
        let (vendor, decoded, last) =
          bind-ok (receive lib resp) (λ r. ok (translate r)) answer rest in
        let call = send-Sent url headers q resp sent in
        record {
          body = call.body;
          out = call.out;
          resp = resp;
          vendor = vendor;
          marshalled = call.marshalled;
          created = call.created;
          sent = call.sent;
          accepted = call.accepted;
          decoded = wrap-ok "decoding response" (lib.decode resp.body) vendor decoded;
          translated = cc last;
        }

    answers :
        IsAnswered url headers q translate answer
        → (send lib url headers q >>= λ resp. receive lib resp >>= λ r. ok (translate r))
          ≡ ok answer
    unfolding send receive
    answers h = ground (arith, h.marshalled, h.created, h.sent, h.accepted, h.decoded, h.translated)

-- Anthropic, Bedrock and OpenAI answer a request exactly if the call to the vendor succeeds with the
-- status 200 and a body that decodes, and the answer is its translation; OpenAI's is the body itself.
pub chat_completion_exact :
    (lib_a : Library Anthropic.AnthropicRequest Anthropic.AnthropicResponse)
    (a : Anthropic.AnthropicProvider)
    (lib_b : Library Bedrock.BedrockRequest Bedrock.BedrockResponse) (s : Bedrock.Signer)
    (b : Bedrock.BedrockProvider) (lib_o : OpenAi.OpenAiLibrary) (o : OpenAi.OpenAiProvider)
    (now : ℕ) (at : Bedrock.Moments) (req : ChatCompletionRequest) (answer : ChatCompletionResponse)
    → ((Anthropic.chat_completion lib_a a now req ≡ ok answer)
        ↔ IsAnswered lib_a
            (a.base_url ++ "/messages")
            (Anthropic.headers lib_a a)
            (Anthropic.translate_request req)
            (λ r. Anthropic.translate_response now r req.model)
            answer)
      × ((Bedrock.chat_completion lib_b s b at req ≡ ok answer)
          ↔ IsAnswered lib_b
              (Bedrock.address lib_b s b req.model)
              (Bedrock.headers lib_b s b req.model)
              (Bedrock.translate_request req)
              (λ r. Bedrock.translate_response at.id at.now r req.model)
              answer)
      × ((OpenAi.chat_completion lib_o o req ≡ ok answer)
          ↔ IsAnswered lib_o
              (o.base_url ++ "/chat/completions")
              (OpenAi.bearer o.api_key)
              req
              (λ r. r)
              answer)
unfolding Anthropic.chat_completion Bedrock.chat_completion OpenAi.chat_completion
chat_completion_exact lib_a a lib_b s b lib_o o now at req answer =
    let translated : Anthropic.AnthropicResponse → ChatCompletionResponse =
      λ r. Anthropic.translate_response now r req.model in
    let translated' : Bedrock.BedrockResponse → ChatCompletionResponse =
      λ r. Bedrock.translate_response at.id at.now r req.model in
    let url = o.base_url ++ "/chat/completions" in
    let same = send_receive lib_o (send lib_o url (OpenAi.bearer o.api_key) req) in
    (
      (
        answered lib_a (a.base_url ++ "/messages") (Anthropic.headers lib_a a)
            (Anthropic.translate_request req) translated answer,
        answers lib_a (a.base_url ++ "/messages") (Anthropic.headers lib_a a)
            (Anthropic.translate_request req) translated answer,
      ),
      (
        answered lib_b (Bedrock.address lib_b s b req.model) (Bedrock.headers lib_b s b req.model)
            (Bedrock.translate_request req) translated' answer,
        answers lib_b (Bedrock.address lib_b s b req.model) (Bedrock.headers lib_b s b req.model)
            (Bedrock.translate_request req) translated' answer,
      ),
      (
        λ h. answered lib_o url (OpenAi.bearer o.api_key) req (λ r. r) answer (sym same ∙ h),
        λ h. same ∙ answers lib_o url (OpenAi.bearer o.api_key) req (λ r. r) answer h,
      ),
    )
