-- ===== src/Provider/Translation.antt =====
-- What the adapters send of a conversation: internal/provider/anthropic.go, bedrock.go, gemini.go and
-- ollama.go.
use aigateway.Prelude.{
  ◌≡◌, refl, sym, subst, ap, ◌∙◌, ◌⊎◌, inl, inr, ◌↔◌, ◌≢◌, String, Bool, not, List, [], ◌∷◌, map,
  keep, All, str_eq, arith, eq_iff,
}
use aigateway.Types.{Message, ChatCompletionRequest}
use aigateway.Provider.Anthropic
use aigateway.Provider.Bedrock
use aigateway.Provider.Gemini

abbrev pub is_system : Message → Bool
is_system m = str_eq m.role "system"

-- The request with its system messages left out.
abbrev pub without_system : ChatCompletionRequest → ChatCompletionRequest
without_system req = record req { messages = keep (λ m. not (is_system m)) req.messages }

-- Of a conversation, Anthropic gets the messages that are not the system's, role and content.
pub anthropic-messages :
    (ms : List Message)
    → Anthropic.translate_messages ms
      ≡ map (λ m. record { role = m.role; content = m.content }) (keep (λ m. not (is_system m)) ms)
unfolding Anthropic.translate_messages
anthropic-messages [] = refl
anthropic-messages (m ∷ ms) = ground (arith, anthropic-messages ms)

pub bedrock-messages :
    (ms : List Message)
    → Bedrock.translate_messages ms
      ≡ map
          (λ m. record { role = m.role; content = record { text = m.content } ∷ [] })
          (keep (λ m. not (is_system m)) ms)
unfolding Bedrock.translate_messages
bedrock-messages [] = refl
bedrock-messages (m ∷ ms) = ground (arith, bedrock-messages ms)

anthropic-without_system :
    (ms : List Message)
    → Anthropic.translate_messages (keep (λ m. not (is_system m)) ms)
      ≡ Anthropic.translate_messages ms
unfolding Anthropic.translate_messages
anthropic-without_system [] = refl
anthropic-without_system (m ∷ ms) = ground (arith, anthropic-without_system ms)

bedrock-without_system :
    (ms : List Message)
    → Bedrock.translate_messages (keep (λ m. not (is_system m)) ms) ≡ Bedrock.translate_messages ms
unfolding Bedrock.translate_messages
bedrock-without_system [] = refl
bedrock-without_system (m ∷ ms) = ground (arith, bedrock-without_system ms)

-- What Anthropic and Bedrock are sent for a request is what they are sent for it without its system
-- messages; and their messages are the others, with role and content, in order.
pub system_prompt_lost :
    (req : ChatCompletionRequest)
    → (Anthropic.translate_request (without_system req) ≡ Anthropic.translate_request req)
      × (Bedrock.translate_request (without_system req) ≡ Bedrock.translate_request req)
      × ((Anthropic.translate_request req).messages
          ≡ map (λ m. record { role = m.role; content = m.content }) (without_system req).messages)
      × ((Bedrock.translate_request req).messages
          ≡ map
              (λ m. record { role = m.role; content = record { text = m.content } ∷ [] })
              (without_system req).messages)
unfolding Anthropic.translate_request Bedrock.translate_request
system_prompt_lost req = (
  ap (λ ms. record (Anthropic.translate_request req) { messages = ms })
      (anthropic-without_system req.messages),
  ap (λ ms. record (Bedrock.translate_request req) { messages = ms })
      (bedrock-without_system req.messages),
  anthropic-messages req.messages,
  bedrock-messages req.messages,
)

-- A message with a role that the API of the gateway knows.
abbrev pub IsKnown : Message → Type 0
IsKnown m = (m.role ≡ "system") ⊎ ((m.role ≡ "user") ⊎ (m.role ≡ "assistant"))

-- A turn of a conversation as Gemini takes it: of the user or of the model, with one text.
pub record IsTurn (m : Message) (c : Gemini.GeminiContent) : Type 0 where
  pub speaker : (c.role ≡ "user") ⊎ (c.role ≡ "model")
  pub model_speaks : (c.role ≡ "model") ↔ (m.role ≡ "assistant")
  pub said : c.parts ≡ record { text = m.content } ∷ []

-- The turns of a conversation, message by message.
pub data AreTurns : List Message → List Gemini.GeminiContent → Type 0 where
  nil : AreTurns [] []
  cons :
      (m : Message) (c : Gemini.GeminiContent) (ms : List Message) (cs : List Gemini.GeminiContent)
      → IsTurn m c
      → AreTurns ms cs
      → AreTurns (m ∷ ms) (c ∷ cs)

user_not_model : ◌≢◌ {A = String} "user" "model"
user_not_model = ground (arith, eq_iff "user" "model")

translate_role-cases :
    (r : String)
    → (r ≡ "system") ⊎ ((r ≡ "user") ⊎ (r ≡ "assistant"))
    → ((Gemini.translate_role r ≡ "user") × (r ≢ "assistant"))
      ⊎ ((Gemini.translate_role r ≡ "model") × (r ≡ "assistant"))
unfolding Gemini.translate_role
translate_role-cases r (inl e) =
    subst
      (λ q.
        ((Gemini.translate_role q ≡ "user") × (q ≢ "assistant"))
        ⊎ ((Gemini.translate_role q ≡ "model") × (q ≡ "assistant")))
      (sym e) (inl (refl, ground (arith, eq_iff "system" "assistant")))
translate_role-cases r (inr (inl e)) =
    subst
      (λ q.
        ((Gemini.translate_role q ≡ "user") × (q ≢ "assistant"))
        ⊎ ((Gemini.translate_role q ≡ "model") × (q ≡ "assistant")))
      (sym e) (inl (refl, ground (arith, eq_iff "user" "assistant")))
translate_role-cases r (inr (inr e)) = inr (ap Gemini.translate_role e, e)

translated-IsTurn :
    (m : Message)
    → IsKnown m
    → IsTurn m
        (record { role = Gemini.translate_role m.role; parts = record { text = m.content } ∷ [] })
translated-IsTurn m known = elim (translate_role-cases m.role known) [
  | inl (user, other) ↦ record {
    speaker = inl user;
    model_speaks = (λ e. absurd (user_not_model (sym user ∙ e)), λ e. absurd (other e));
    said = refl;
  }
  | inr (model, assistant) ↦ record {
    speaker = inr model;
    model_speaks = (λ _. assistant, λ _. model);
    said = refl;
  }
]

contents-AreTurns :
    (ms : List Message) → All IsKnown ms → AreTurns ms (Gemini.translate_contents ms)
unfolding Gemini.translate_contents
contents-AreTurns [] known = nil
contents-AreTurns (m ∷ ms) known =
    cons m
      (record { role = Gemini.translate_role m.role; parts = record { text = m.content } ∷ [] }) ms
      (Gemini.translate_contents ms) (translated-IsTurn m known.0) (contents-AreTurns ms known.1)

-- Of a conversation whose roles are the system's, the user's and the assistant's, Gemini is sent a
-- turn for each message, in order, with its content; it is the model's where the message is the
-- assistant's, and the user's otherwise.
pub gemini_turns :
    (req : ChatCompletionRequest)
    → All IsKnown req.messages
    → AreTurns req.messages (Gemini.translate_request req).contents
unfolding Gemini.translate_request
gemini_turns req known = contents-AreTurns req.messages known
