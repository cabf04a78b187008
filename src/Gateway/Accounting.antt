-- ===== src/Gateway/Accounting.antt =====
-- internal/gateway/handler.go: what a request is charged.
use aigateway.Prelude.{
  ◌≡◌, refl, sym, subst, ap, ◌∙◌, String, false, Option, arith, Bool-cases, Option-cases, inl, inr,
}
use aigateway.Float.{Float64}
use aigateway.Types.{ChatCompletionRequest, ChatCompletionResponse}
use aigateway.Config.Types.{TenantConfig}
use aigateway.Middleware.Http.{HttpRequest, Headers, go, Step-cases}
use aigateway.Budget.{record_spend}
use aigateway.Usage.{record_usage}
use aigateway.Gateway.{
  Service, Handler, Moment, tenant_id_of, parse, check_model_budget, check_input_policy,
}
use aigateway.Gateway.Chat.{
  Reply, failure, hit, miss, stream, when_present, enqueue, usage_event, cost_of, from_cache,
  cache_key, check_output_policy, account, complete_routed, complete, serve, chat_completion,
}
use aigateway.Gateway.Charges.{
  is_miss, IsUncharged, check_model_budget-IsUncharged, check_input_policy-IsUncharged,
  chat_completion-IsUncharged,
}

module _ {fl : Float64} {C : Type 0} (svc : Service fl C) (at : Moment fl.F) (tenant_id : String)
    (req : ChatCompletionRequest) where
  -- The usage, the spending and the queue of the database have taken the response.
  pub record IsCharged (resp : ChatCompletionResponse) (h h' : Handler fl C) : Type 0 where
    pub usage :
        h'.usage ≡ when_present fl svc (record_usage fl tenant_id req.model resp.usage) h.usage
    pub budget :
        h'.budget
        ≡ when_present fl svc
            (record_spend fl at.month tenant_id req.model (cost_of fl svc resp.usage.total_tokens))
            h.budget
    pub db_queue :
        h'.db_queue
        ≡ when_present fl svc
            (enqueue (usage_event fl svc at tenant_id req.model resp.usage))
            h.db_queue

  complete_routed-IsCharged :
      (headers shown : Headers) (h h' : Handler fl C) (resp : ChatCompletionResponse)
      → complete_routed fl svc at tenant_id req headers h ≡ (miss shown resp, h')
      → IsCharged resp h h'
  unfolding complete_routed check_output_policy account
  complete_routed-IsCharged headers shown h h' resp e = record {
    usage = ground arith;
    budget = ground arith;
    db_queue = ground arith;
  }

  complete-IsCharged :
      (headers shown : Headers) (h h' : Handler fl C) (resp : ChatCompletionResponse)
      → complete fl svc at tenant_id req headers h ≡ (miss shown resp, h')
      → IsCharged resp h h'
  unfolding complete
  complete-IsCharged headers shown h h' resp e =
      let looked = from_cache fl svc at (cache_key fl svc tenant_id req) h.cache in
      let h0 : Handler fl C = record h { cache = looked.1 } in
      elim (Option-cases looked.0) [
        | inr (other, found) ↦ ground (arith, found)
        | inl missed ↦
            let c = complete_routed-IsCharged headers shown h0 h' resp (ground (arith, missed)) in
            record { usage = c.usage; budget = c.budget; db_queue = c.db_queue }
      ]

  serve-IsCharged :
      (headers shown : Headers) (h h' : Handler fl C) (resp : ChatCompletionResponse)
      → serve fl svc at tenant_id req headers h ≡ (miss shown resp, h')
      → IsCharged resp h h'
  unfolding serve
  serve-IsCharged headers shown h h' resp e = elim (Bool-cases req.stream) [
    | inl streams ↦ ground (arith, streams)
    | inr whole ↦ complete-IsCharged headers shown h h' resp (ground (arith, whole))
  ]

  -- From a state that the checks left uncharged.
  since :
      (resp : ChatCompletionResponse) (h h0 h' : Handler fl C)
      → IsUncharged h h0
      → IsCharged resp h0 h'
      → IsCharged resp h h'
  since resp h h0 h' same c = record {
    usage =
        c.usage
        ∙ ap (when_present fl svc (record_usage fl tenant_id req.model resp.usage)) same.usage;
    budget =
        c.budget
        ∙ ap
            (when_present fl svc (
              record_spend fl at.month tenant_id req.model
                (cost_of fl svc resp.usage.total_tokens)))
            same.budget;
    db_queue =
        c.db_queue
        ∙ ap (when_present fl svc (enqueue (usage_event fl svc at tenant_id req.model resp.usage)))
            same.db_queue;
  }

module _ {fl : Float64} {C : Type 0} (svc : Service fl C) (at : Moment fl.F) (r : HttpRequest)
    (tenant : Option TenantConfig) (headers : Headers) where
  -- The answer of a provider is charged to the tenant and the model of the request, anything else to none.
  pub Settled : Handler fl C → Handler fl C → Reply → Type 0
  Settled h h' (miss shown resp) =
      (req : ChatCompletionRequest) × (parse fl svc r headers ≡ go req)
      × IsCharged svc at (tenant_id_of tenant) req resp h h'
  Settled h h' (failure f) = IsUncharged h h'
  Settled h h' (hit shown resp) = IsUncharged h h'
  Settled h h' (stream s) = IsUncharged h h'

  chat_completion-IsCharged :
      (shown : Headers) (h h' : Handler fl C) (resp : ChatCompletionResponse)
      → chat_completion fl svc at r tenant headers h ≡ (miss shown resp, h')
      → Settled h h' (miss shown resp)
  unfolding chat_completion Settled
  chat_completion-IsCharged shown h h' resp e = elim (Step-cases (parse fl svc r headers)) [
    | inl (f, failed) ↦ ground (arith, failed)
    | inr (req, parsed) ↦
        let id = tenant_id_of tenant in
        let budgeted = check_model_budget fl svc at id req.model headers h in
        elim (Step-cases budgeted.0) [
          | inl (f, failed) ↦ ground (arith, parsed, failed)
          | inr (headers', went) ↦
              let checked = check_input_policy fl svc at id req headers' budgeted.1 in
              elim (Step-cases checked.0) [
                | inl (f, failed) ↦ ground (arith, parsed, went, failed)
                | inr (u, passed) ↦
                    let served : serve fl svc at id req headers' checked.1 ≡ (miss shown resp, h') =
                      ground (arith, parsed, went, passed) in
                    let charged =
                      serve-IsCharged svc at id req headers' shown checked.1 h' resp served in
                    (
                      req,
                      parsed,
                      since svc at id req resp h budgeted.1 h'
                          (check_model_budget-IsUncharged svc at id req.model headers h)
                          (since svc at id req resp budgeted.1 checked.1 h'
                            (check_input_policy-IsUncharged svc at id req headers' budgeted.1)
                            charged),
                    )
              ]
        ]
  ]

  not_charged :
      (h h' : Handler fl C) (reply : Reply)
      → is_miss reply ≡ false
      → chat_completion fl svc at r tenant headers h ≡ (reply, h')
      → IsUncharged h h'
  not_charged h h' reply other e = subst (IsUncharged h) (ap (λ p. p.1) e) (
      chat_completion-IsUncharged svc at r tenant headers h
        (subst (λ x. is_miss x ≡ false) (sym (ap (λ p. p.0) e)) other))

  -- A response of a provider is charged once, to the tenant and the model of the request: the usage store
  -- counts it, the budgets spend its cost, and the queue of the database takes an event if it has room. A
  -- request that is refused, answered from the cache or streamed changes none of these, and stores no
  -- response in the cache.
  pub chat_completion-Settled :
      (h h' : Handler fl C) (reply : Reply)
      → chat_completion fl svc at r tenant headers h ≡ (reply, h')
      → Settled h h' reply
  unfolding Settled is_miss
  chat_completion-Settled h h' (miss shown resp) e = chat_completion-IsCharged shown h h' resp e
  chat_completion-Settled h h' (failure f) e = not_charged h h' (failure f) refl e
  chat_completion-Settled h h' (hit shown resp) e = not_charged h h' (hit shown resp) refl e
  chat_completion-Settled h h' (stream s) e = not_charged h h' (stream s) refl e
