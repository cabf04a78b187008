-- ===== src/Gateway.antt =====
-- internal/gateway/handler.go: the state of the handler and the steps of `ChatCompletion`. What it
-- takes from Go's libraries is a parameter: the JSON decoder, the joining of texts, the digest. The
-- components that may be absent (nil) are options. A request is handled at a moment: the clock
-- readings, the order of a range and what the providers answer.
pub mod Chat
pub mod Streaming
pub mod Charges
pub mod Accounting
pub mod Repeat
pub mod Scanning
pub mod Request
pub mod Setup
pub mod Authorized
pub mod Transform
pub mod Sample
mod Tests
use Prim.Native.String.{◌++◌ as str_append}
use aigateway.Prelude.{
  ℕ, String, Bool, Option, none, some, List, [], ◌∷◌, ◌++◌, take, length, ltb, str_eq,
  if◌then◌else◌,
}
use aigateway.Prelude.Dict.{Dict}
use aigateway.Float.{Float64}
use aigateway.Types.{Message, ChatCompletionRequest, ChatCompletionResponse}
use aigateway.Config.Types.{TenantConfig}
use aigateway.Middleware.{with_warnings}
use aigateway.Middleware.Http.{
  HttpRequest, Headers, header_set, Failure, error_response, Step, go, fail,
}
use aigateway.Policy.{
  Action, block, warn, log, is_block, Violation, Engine, TextLibrary, check_input,
}
use aigateway.Budget.{Manager, Messages, check}
use aigateway.Cache.{MemoryCache, CacheEntry}
use aigateway.Usage.{Store}
use aigateway.Rollout.Types.{Rollout}
use aigateway.Router.{Router, World, Error}
use aigateway.Analytics.{DataPoint}
use aigateway.Webhook.{Event, Notifier, send}

-- What is queued for the database (storage.UsageEvent), as far as the handler fills it in.
pub record UsageEvent : Type 0 where
  pub tenant_id : String
  pub model : String
  pub prompt_tokens : ℕ
  pub completion_tokens : ℕ
  pub total_tokens : ℕ
  pub status_code : ℕ
  pub latency_ms : ℕ
  pub created_at : ℕ

-- The collector, as the handler sees it.
pub record Recorder (F C : Type 0) : Type 0 where
  pub record_data : DataPoint F → C → C

-- What does not change from one request to the next.
pub record Service (fl : Float64) (C : Type 0) : Type 0 where
  pub max_body_size : ℕ
  -- The first JSON value of the bytes, if it is a request.
  pub decode : List ℕ → Option ChatCompletionRequest
  pub join : List String → String → String
  pub to_text : List ℕ → String
  pub sha256_hex : String → String
  pub error_text : Error → String
  pub text : TextLibrary
  pub messages : Messages fl
  pub recorder : Recorder fl.F C

pub record Handler (fl : Float64) (C : Type 0) : Type 0 where
  pub router : Router
  pub policy : Option Engine
  pub usage : Option (Store fl.F)
  pub cache : Option (MemoryCache ChatCompletionResponse)
  pub webhook : Option Notifier
  pub db_queue : Option (List UsageEvent)
  pub analytics : Option C
  -- recordSpend and budgetCheck, which are of one manager.
  pub budget : Option (Manager fl.F)

pub record Moment (F : Type 0) : Type 0 where
  pub looked_up : ℕ
  pub swept : ℕ
  pub stored : ℕ
  pub month : ℕ
  -- Of the event for the database, and of the point for the analytics.
  pub queued_latency_ms : ℕ
  pub created_at : ℕ
  pub latency_ms : ℕ
  pub now : ℕ
  pub order : Dict (CacheEntry ChatCompletionResponse) → Dict (CacheEntry ChatCompletionResponse)
  pub rollout : Option (Rollout F)
  pub world : World ChatCompletionResponse
  -- The replies of the streaming calls: what each read of the stream returns.
  pub streams : World (List (List ℕ))

unfoldable pub extract_contents : List Message → List String
extract_contents [] = []
extract_contents (m ∷ messages) = m.content ∷ extract_contents messages

unfoldable pub format_violation : Violation → String
format_violation v =
    str_append "policy violation: " (str_append v.policy_name (str_append " — " v.message))

abbrev pub action_text : Action → String
action_text block = "block"
action_text warn = "warn"
action_text log = "log"

abbrev pub tenant_id_of : Option TenantConfig → String
tenant_id_of none = ""
tenant_id_of (some t) = t.id

module _ (fl : Float64) {C : Type 0} (svc : Service fl C) where
  open fl use {F, of_int}

  unfoldable pub extract_content : List Message → String
  unfolding extract_contents
  extract_content messages = svc.join (extract_contents messages) " "

  unfoldable pub record_analytics :
      Moment F → String → String → String → ℕ → ℕ → Option C → Option C
  record_analytics at tenant_id model provider status_code tokens none = none
  record_analytics at tenant_id model provider status_code tokens (some c) = some (
      svc.recorder.record_data
        (record {
          tenant_id = tenant_id;
          model = model;
          provider = provider;
          status_code = status_code;
          latency_ms = at.latency_ms;
          tokens = tokens;
          estimated_cost = of_int 0;
          timestamp = at.now;
        })
        c)

  abbrev pub violation_event : String → String → String → Violation → Event
  violation_event event_type tenant_id model v = record {
    event_type = event_type;
    policy_name = v.policy_name;
    action = action_text v.action;
    tenant_id = tenant_id;
    model = model;
    message = v.message;
  }

  -- The body is decoded, and must name a model and hold messages.
  unfoldable pub parse : HttpRequest → Headers → Step ChatCompletionRequest
  parse r headers =
      let bad : String → Step ChatCompletionRequest =
        λ message. fail (error_response 400 "invalid_request" message headers) in
      elim r.body [
        | none ↦ bad "failed to parse request body"
        | some bytes ↦ elim (svc.decode (take svc.max_body_size bytes)) [
          | none ↦ bad "failed to parse request body"
          | some req ↦
              if str_eq req.model ""
              then bad "model is required"
              else elim req.messages [ [] ↦ bad "messages is required" | m ∷ ms ↦ go req ]
        ]
      ]

  -- The budget of the tenant's model.
  unfoldable pub check_model_budget :
      Moment F → String → String → Headers → Handler fl C → Step Headers × Handler fl C
  check_model_budget at tenant_id model headers h = elim h.budget [
    | none ↦ (go headers, h)
    | some m ↦
        let result = check fl svc.messages tenant_id model m in
        if str_eq tenant_id ""
        then (go headers, h)
        else if result.allowed
        then (go (with_warnings result.warnings headers), h)
        else (
          fail (error_response 429 "budget_exceeded" result.block_msg headers),
          record h { analytics = record_analytics at tenant_id model "" 429 0 h.analytics },
        )
  ]

  -- The input policy: a violation that blocks is answered with 403, another one is announced.
  unfoldable pub check_input_policy :
      Moment F
      → String
      → ChatCompletionRequest
      → Headers
      → Handler fl C
      → Step (Unit {0}) × Handler fl C
  check_input_policy at tenant_id req headers h = elim h.policy [
    | none ↦ (go tt, h)
    | some engine ↦ elim (check_input svc.text (extract_content req.messages) engine) [
      | none ↦ (go tt, h)
      | some v ↦
          if is_block v.action
          then (
            fail (error_response 403 "policy_violation" (format_violation v) headers),
            record h {
              webhook = send (violation_event "policy_violation" tenant_id req.model v) h.webhook;
              analytics = record_analytics at tenant_id req.model "" 403 0 h.analytics;
            },
          )
          else (
            go tt,
            record h {
              webhook = send (violation_event "policy_warning" tenant_id req.model v) h.webhook;
            },
          )
    ]
  ]
