-- ===== src/Gateway/Authorized.antt =====
-- What a chat request has passed that is not answered with an error.
use aigateway.Prelude.{
  ◌≡◌, ◌≢◌, subst, ◌∙◌, String, Bool, true, false, Option, some, arith, eq_iff, inl, inr,
}
use aigateway.Float.{Float64}
use aigateway.Types.{ChatCompletionRequest}
use aigateway.Config.Types.{TenantConfig, Config}
use aigateway.Config.{find_tenant_by_api_key}
use aigateway.Middleware.{extract_api_key}
use aigateway.Middleware.Http.{HttpRequest, Headers, go, Step-cases}
use aigateway.Middleware.Limits.{Limiter}
use aigateway.Middleware.Cors.{TextFormat}
use aigateway.Middleware.Chain.{admit}
use aigateway.Middleware.Admission.{IsGranted, admit-IsGranted}
use aigateway.Policy.{is_block, Violation, Engine, check_input}
use aigateway.Budget.{Manager, check}
use aigateway.Gateway.{
  Service, Handler, Moment, tenant_id_of, extract_content, parse, check_model_budget,
  check_input_policy,
}
use aigateway.Gateway.Streaming.{not_started, started}
use aigateway.Gateway.Chat.{Reply, failure, hit, miss, stream, chat_completion}
use aigateway.Gateway.Request.{check_func, handle_request}

unfoldable pub is_answered : Reply → Bool
is_answered (failure f) = false
is_answered (hit headers resp) = true
is_answered (miss headers resp) = true
is_answered (stream (not_started f)) = false
is_answered (stream (started headers written)) = true

module _ (fl : Float64) {C : Type 0} (svc : Service fl C) where
  open fl use {F}

  -- The budget of the tenant's model allows the request, and the input policy does not block it.
  pub record IsAllowed (tenant_id : String) (req : ChatCompletionRequest) (h : Handler fl C)
      : Type 0 where
    pub within_budget :
        (m : Manager F)
        → h.budget ≡ some m
        → tenant_id ≢ ""
        → (check fl svc.messages tenant_id req.model m).allowed ≡ true
    pub not_blocked :
        (engine : Engine) (v : Violation)
        → h.policy ≡ some engine
        → check_input svc.text (extract_content fl svc req.messages) engine ≡ some v
        → is_block v.action ≡ false

  check_model_budget-allowed :
      (at : Moment F) (tenant_id model : String) (headers headers' : Headers) (h : Handler fl C)
      → (check_model_budget fl svc at tenant_id model headers h).0 ≡ go headers'
      → (m : Manager F) → h.budget ≡ some m
      → tenant_id ≢ ""
      → (check fl svc.messages tenant_id model m).allowed ≡ true
  unfolding check_model_budget
  check_model_budget-allowed at tenant_id model headers headers' h e m given named =
      ground (arith, given, eq_iff tenant_id "")

  policy-check_model_budget :
      (at : Moment F) (tenant_id model : String) (headers : Headers) (h : Handler fl C)
      → (check_model_budget fl svc at tenant_id model headers h).1.policy ≡ h.policy
  unfolding check_model_budget
  policy-check_model_budget at tenant_id model headers h = ground arith

  check_input_policy-passes :
      (at : Moment F) (tenant_id : String) (req : ChatCompletionRequest) (headers : Headers)
      (h : Handler fl C)
      → (check_input_policy fl svc at tenant_id req headers h).0 ≡ go tt
      → (engine : Engine) (v : Violation) → h.policy ≡ some engine
      → check_input svc.text (extract_content fl svc req.messages) engine ≡ some v
      → is_block v.action ≡ false
  unfolding check_input_policy
  check_input_policy-passes at tenant_id req headers h e engine v given found =
      ground (arith, given, found)

  chat_completion-IsAllowed :
      (at : Moment F) (r : HttpRequest) (tenant : Option TenantConfig) (headers : Headers)
      (h : Handler fl C)
      → is_answered (chat_completion fl svc at r tenant headers h).0 ≡ true
      → (req : ChatCompletionRequest) × (parse fl svc r headers ≡ go req)
        × IsAllowed (tenant_id_of tenant) req h
  unfolding chat_completion is_answered
  chat_completion-IsAllowed at r tenant headers h e = elim (Step-cases (parse fl svc r headers)) [
    | inl (f, failed) ↦ ground (arith, failed)
    | inr (req, parsed) ↦
        let id = tenant_id_of tenant in
        let budgeted = check_model_budget fl svc at id req.model headers h in
        elim (Step-cases budgeted.0) [
          | inl (f, failed) ↦ ground (arith, parsed, failed)
          | inr (headers', went) ↦
              let checked = check_input_policy fl svc at id req headers' budgeted.1 in
              elim (Step-cases checked.0) [
                | inl (f, failed) ↦ ground (arith, parsed, went, failed)
                | inr (u, passed) ↦ (
                  req,
                  parsed,
                  record {
                    within_budget =
                        check_model_budget-allowed at id req.model headers headers' h went;
                    not_blocked = λ engine v given.
                        check_input_policy-passes at id req headers' budgeted.1 passed engine v
                          (policy-check_model_budget at id req.model headers h ∙ given);
                  },
                )
              ]
        ]
  ]

  module _ {S1 S2 : Type 0} (requests : Limiter S1) (tokens : Limiter S2) where
    -- A request for a chat completion that is answered with a response or a stream carries the API key
    -- of a tenant, and its body decodes to a request for a model. Both limiters have granted and charged
    -- it. The budget manager, if there is one, allows the tenant the model "*" and, if the tenant's
    -- identifier is not empty, the model of the request. The input policy, if there is one, finds nothing
    -- in its messages that blocks.
    pub handle_request-IsAllowed :
        (text : TextFormat) (sha256 : String → String) (cfg : Config F) (at : Moment F)
        (r : HttpRequest) (s1 s1' : S1) (s2 s2' : S2) (h h' : Handler fl C) (reply : Reply)
        → r.path ≡ "/v1/chat/completions"
        → handle_request fl svc requests tokens text sha256 cfg at r s1 s2 h ≡ (reply, s1', s2', h')
        → is_answered reply ≡ true
        → (t : TenantConfig) × (req : ChatCompletionRequest) × (headers : Headers) × (parse fl svc r
              headers
            ≡ go req)
          × (find_tenant_by_api_key sha256 (extract_api_key r) cfg ≡ some t)
          × IsGranted requests tokens (check_func fl svc requests tokens h.budget) t r s1 s1' s2 s2'
          × IsAllowed t.id req h
    unfolding handle_request is_answered
    handle_request-IsAllowed text sha256 cfg at r s1 s1' s2 s2' h h' reply p e answered =
        let run =
          admit requests tokens text sha256 cfg (check_func fl svc requests tokens h.budget) r s1
            s2 in
        elim (Step-cases run.0) [
          | inl (f, failed) ↦ ground (arith, failed)
          | inr (a, went) ↦
              let (t, tenant, keyed, known, granted) =
                admit-IsGranted requests tokens (check_func fl svc requests tokens h.budget) text
                  sha256 cfg r a s1 s1' s2 s2' p (ground (arith, went)) in
              let (req, parsed, allowed) =
                chat_completion-IsAllowed at r a.tenant a.headers h
                  (ground (arith, went, answered)) in
              (
                t,
                req,
                a.headers,
                parsed,
                known,
                granted,
                subst (λ o. IsAllowed (tenant_id_of o) req h) tenant allowed,
              )
        ]
