-- ===== src/Gateway/Chat.antt =====
-- internal/gateway/handler.go: `ChatCompletion`, from the checks of a request to the answer, and
-- `ListModels`.
use mathlib.Core.List.{List}
use aigateway.Prelude.{ℕ, String, Option, none, some, [], ◌∷◌, ◌++◌, length, ltb, if◌then◌else◌}
use aigateway.Float.{Float64}
use aigateway.Types.{ChatCompletionRequest, ChatCompletionResponse, Usage}
use aigateway.Config.Types.{TenantConfig}
use aigateway.Middleware.Http.{
  HttpRequest, Headers, header_set, Failure, error_response, Step, go, fail,
}
use aigateway.Policy.{is_block, check_output}
use aigateway.Budget.{record_spend}
use aigateway.Cache.{MemoryCache, get, set}
use aigateway.Cache.Key.{build_key}
use aigateway.Usage.{record_usage}
use aigateway.Router.{routed, refused}
use aigateway.Router.Dispatch.{route_with_provider}
use aigateway.Webhook.{send}
use aigateway.Gateway.{
  UsageEvent, Service, Handler, Moment, format_violation, tenant_id_of, record_analytics,
  violation_event, parse, check_model_budget, check_input_policy,
}
use aigateway.Gateway.Streaming.{StreamReply, handle_stream}

-- The answer of the handler: an error, a response that was cached, one of a provider, or a stream.
pub data Reply : Type 0 where
  failure : Failure → Reply
  hit miss : Headers → ChatCompletionResponse → Reply
  stream : StreamReply → Reply

abbrev pub db_queue_size : ℕ
db_queue_size = 1024

-- The event is dropped if the queue is full.
unfoldable pub enqueue : UsageEvent → List UsageEvent → List UsageEvent
enqueue e q = if ltb (length q) db_queue_size then q ++ e ∷ [] else q

abbrev pub json_headers : String → Headers → Headers
json_headers cached headers =
    header_set "X-AegisFlow-Cache" cached (header_set "Content-Type" "application/json" headers)

module _ (fl : Float64) {C : Type 0} (svc : Service fl C) where
  open fl use {F, of_int, mul, div}

  abbrev pub cache_key : String → ChatCompletionRequest → String
  cache_key tenant_id req = build_key svc.sha256_hex tenant_id req.model req.messages

  -- The look into the cache.
  unfoldable pub from_cache :
      Moment F
      → String
      → Option (MemoryCache ChatCompletionResponse)
      → Option ChatCompletionResponse × Option (MemoryCache ChatCompletionResponse)
  from_cache at key none = (none, none)
  from_cache at key (some c) = let (found, c') = get at.looked_up key c in (found, some c')

  unfoldable pub check_output_policy :
      Moment F
      → String
      → String
      → String
      → ChatCompletionResponse
      → Headers
      → Handler fl C
      → Step (Unit {0}) × Handler fl C
  check_output_policy at tenant_id model provider resp headers h = elim h.policy [
    | none ↦ (go tt, h)
    | some engine ↦ elim resp.choices [
      | [] ↦ (go tt, h)
      | choice ∷ choices ↦ elim (check_output svc.text choice.message.content engine) [
        | none ↦ (go tt, h)
        | some v ↦
            if is_block v.action
            then (
              fail (error_response 403 "policy_violation" (format_violation v) headers),
              record h {
                webhook =
                    send (violation_event fl svc "policy_violation" tenant_id model v) h.webhook;
                analytics = record_analytics fl svc at tenant_id model provider 403 0 h.analytics;
              },
            )
            else (go tt, h)
      ]
    ]
  ]

  abbrev pub usage_event : Moment F → String → String → Usage → UsageEvent
  usage_event at tenant_id model u = record {
    tenant_id = tenant_id;
    model = model;
    prompt_tokens = u.prompt_tokens;
    completion_tokens = u.completion_tokens;
    total_tokens = u.total_tokens;
    status_code = 200;
    latency_ms = at.queued_latency_ms;
    created_at = at.created_at;
  }

  -- float64(resp.Usage.TotalTokens)*0.00001
  abbrev pub cost_of : ℕ → F
  cost_of tokens = mul (of_int tokens) (div (of_int 1) (of_int 100_000))

  abbrev pub when_present : {A : Type 0} → (A → A) → Option A → Option A
  when_present f none = none
  when_present f (some a) = some (f a)

  -- What a response leaves behind: the cache, the usage, the queue of the database, the spending and
  -- the analytics.
  unfoldable pub account :
      Moment F
      → String
      → ChatCompletionRequest
      → String
      → ChatCompletionResponse
      → Handler fl C
      → Handler fl C
  unfolding enqueue
  account at tenant_id req provider resp h = record h {
    cache = when_present (set at.order at.swept at.stored (cache_key tenant_id req) resp) h.cache;
    usage = when_present (record_usage fl tenant_id req.model resp.usage) h.usage;
    db_queue = when_present (enqueue (usage_event at tenant_id req.model resp.usage)) h.db_queue;
    budget =
        when_present
          (record_spend fl at.month tenant_id req.model (cost_of resp.usage.total_tokens)) h.budget;
    analytics =
        record_analytics fl svc at tenant_id req.model provider 200 resp.usage.total_tokens
          h.analytics;
  }

  -- A request that the cache does not answer.
  unfoldable pub complete_routed :
      Moment F → String → ChatCompletionRequest → Headers → Handler fl C → Reply × Handler fl C
  unfolding check_output_policy account
  complete_routed at tenant_id req headers h =
      let (result, router) = route_with_provider at.world req.model at.rollout h.router in
      elim result [
        | refused e ↦ (
          failure (error_response 502 "provider_error" (svc.error_text e) headers),
          record h {
            router = router;
            analytics = record_analytics fl svc at tenant_id req.model "" 502 0 h.analytics;
          },
        )
        | routed resp provider region ↦
            let (step, h') =
              check_output_policy at tenant_id req.model provider resp headers
                (record h { router = router }) in
            elim step [
              | fail f ↦ (failure f, h')
              | go _ ↦ (
                miss (json_headers "MISS" headers) resp,
                account at tenant_id req provider resp h',
              )
            ]
      ]

  -- A request that is not to be streamed.
  unfoldable pub complete :
      Moment F → String → ChatCompletionRequest → Headers → Handler fl C → Reply × Handler fl C
  unfolding from_cache complete_routed
  complete at tenant_id req headers h =
      let (found, cache) = from_cache at (cache_key tenant_id req) h.cache in
      elim found [
        | some resp ↦ (hit (json_headers "HIT" headers) resp, record h { cache = cache })
        | none ↦ complete_routed at tenant_id req headers (record h { cache = cache })
      ]

  -- A request that passed the checks.
  unfoldable pub serve :
      Moment F → String → ChatCompletionRequest → Headers → Handler fl C → Reply × Handler fl C
  unfolding complete handle_stream
  serve at tenant_id req headers h =
      if req.stream
      then (let (reply, h') = handle_stream svc at tenant_id req headers h in (stream reply, h'))
      else complete at tenant_id req headers h

  unfoldable pub chat_completion :
      Moment F → HttpRequest → Option TenantConfig → Headers → Handler fl C → Reply × Handler fl C
  unfolding parse check_model_budget check_input_policy serve
  chat_completion at r tenant headers h = elim (parse fl svc r headers) [
    | fail f ↦ (failure f, h)
    | go req ↦
        let tenant_id = tenant_id_of tenant in
        let (budgeted, h') = check_model_budget fl svc at tenant_id req.model headers h in
        elim budgeted [
          | fail f ↦ (failure f, h')
          | go headers' ↦
              let (checked, h'') = check_input_policy fl svc at tenant_id req headers' h' in
              elim checked [
                | fail f ↦ (failure f, h'')
                | go _ ↦ serve at tenant_id req headers' h''
              ]
        ]
  ]
