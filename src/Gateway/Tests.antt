-- ===== src/Gateway/Tests.antt =====
-- Runs of the handler, and the theorems at them.
use aigateway.Prelude.{true, ◌≡◌, refl, ℕ, ◌+◌, none, some, List, [], ◌∷◌, arith, replicate, length}
use aigateway.Prelude.Dict.{lookup, insert}
use aigateway.Float.Whole.{whole}
use aigateway.Types.{ChatCompletionRequest, ChatCompletionResponse}
use aigateway.Config.Types.{TenantConfig}
use aigateway.Policy.{block, Engine, keyword_filter}
use aigateway.Cache.Key.{message_text, key_text, build_key}
use aigateway.Cache.{MemoryCache, get, set, sweep, evict}
use aigateway.Provider.{available, get as find}
use aigateway.Router.{match_route, resolve_providers, try_providers, walk, attempt}
use aigateway.Router.Breaker.{new_circuit_breaker, is_open, record_success}
use aigateway.Router.Selection.{select}
use aigateway.Router.Dispatch.{route_flat, route_with_provider}
use aigateway.Gateway.{Handler, parse}
use aigateway.Gateway.Streaming.{relay}
use aigateway.Gateway.Chat.{
  hit, miss, json_headers, cache_key, from_cache, check_output_policy, complete_routed, complete,
  chat_completion,
}
use aigateway.Gateway.Repeat.{complete-repeated}
use aigateway.Gateway.Scanning.{pieces, joined, Relayed, relay-unscanned, relay-Relayed}
use aigateway.Config.Types.{TenantConfig}
use aigateway.Config.Sample.{empty}
use aigateway.Config.{find_tenant_by_api_key, find_from}
use aigateway.Middleware.{extract_api_key, limited}
use aigateway.Middleware.Http.{Headers, go}
use aigateway.Middleware.Limits.{Limiter, verdict}
use aigateway.Middleware.Cors.{TextFormat}
use aigateway.Middleware.Admission.{IsGranted}
use aigateway.Gateway.Sample.{hello, answer, service, empty_cache, handler, moment, request, acme}
use aigateway.Gateway.Chat.{Reply}
use aigateway.Gateway.Request.{check_func, handle_request}
use aigateway.Gateway.Authorized.{is_answered, IsAllowed, handle_request-IsAllowed}
use aigateway.Gateway.Accounting.{Settled, chat_completion-Settled}

-- The budget is used up, so the request is refused.
chat_completion-Settled_example :
    let run = chat_completion whole service (moment 7) request acme [] handler in
    Settled service (moment 7) request acme [] handler run.1 run.0
chat_completion-Settled_example =
    let run = chat_completion whole service (moment 7) request acme [] handler in
    chat_completion-Settled service (moment 7) request acme [] handler run.1 run.0 refl

-- A limiter that grants and counts.
abbrev granting : Limiter ℕ
granting = record { allow = λ key cost n. (verdict true, n + cost) }

abbrev plain : TextFormat
plain = record { join = λ ts sep. sep; itoa = λ n. "" }

abbrev unlimited : Handler whole ℕ
unlimited = record handler { budget = none }

abbrev run_all : Reply × ℕ × ℕ × Handler whole ℕ
run_all =
    handle_request whole service granting granting plain (λ s. s) empty (moment 7) request 0 0
      unlimited

answered : is_answered run_all.0 ≡ true
unfolding handle_request is_answered find_tenant_by_api_key find_from limited get lookup
    route_with_provider match_route route_flat resolve_providers available find try_providers select
    is_open new_circuit_breaker
answered = refl

handle_request-IsAllowed_example :
    (t : TenantConfig) × (req : ChatCompletionRequest) × (headers : Headers) × (parse whole service
        request headers
      ≡ go req)
    × (find_tenant_by_api_key (λ s. s) (extract_api_key request) empty ≡ some t)
    × IsGranted granting granting
        (check_func whole service granting granting unlimited.budget)
        t
        request
        0
        run_all.1
        0
        run_all.2
    × IsAllowed whole service t.id req unlimited
handle_request-IsAllowed_example =
    handle_request-IsAllowed whole service granting granting plain (λ s. s) empty (moment 7) request
      0 run_all.1 0 run_all.2 unlimited run_all.3 run_all.0 refl refl answered

abbrev cache_of : Handler whole ℕ → MemoryCache ChatCompletionResponse
cache_of h = elim h.cache [ none ↦ empty_cache | some c ↦ c ]

abbrev after_first : Handler whole ℕ
after_first = (complete whole service (moment 7) "acme" hello [] handler).1

first_run :
    complete whole service (moment 7) "acme" hello [] handler
    ≡ (miss (json_headers "MISS" []) answer, after_first)
unfolding complete from_cache get lookup complete_routed check_output_policy route_with_provider
    match_route route_flat resolve_providers available find select try_providers walk attempt
    is_open new_circuit_breaker
first_run = refl

abbrev stored_first : MemoryCache ChatCompletionResponse
stored_first = cache_of after_first

-- A request of another tenant comes in between, and its answer is stored too.
abbrev after_second : Handler whole ℕ
after_second = (complete whole service (moment 57) "globex" hello [] after_first).1

abbrev stored_second : MemoryCache ChatCompletionResponse
stored_second = cache_of after_second

after_first_caches : after_first.cache ≡ some stored_first
unfolding complete from_cache get set sweep evict build_key key_text message_text lookup insert
    complete_routed check_output_policy route_with_provider match_route route_flat resolve_providers
    available find select try_providers walk attempt is_open new_circuit_breaker record_success
after_first_caches = refl

after_second_caches : after_second.cache ≡ some stored_second
unfolding complete from_cache get set sweep evict build_key key_text message_text lookup insert
    complete_routed check_output_policy route_with_provider match_route route_flat resolve_providers
    available find select try_providers walk attempt is_open new_circuit_breaker record_success
after_second_caches = refl

two_stored : length stored_second.entries ≡ 2
unfolding complete from_cache get set sweep evict build_key key_text message_text lookup insert
    complete_routed check_output_policy route_with_provider match_route route_flat resolve_providers
    available find select try_providers walk attempt is_open new_circuit_breaker record_success
two_stored = refl

stands :
    lookup (cache_key whole service "acme" hello) stored_second.entries
    ≡ lookup (cache_key whole service "acme" hello) stored_first.entries
unfolding complete from_cache get set sweep evict build_key key_text message_text lookup insert
    complete_routed check_output_policy route_with_provider match_route route_flat resolve_providers
    available find select try_providers walk attempt is_open new_circuit_breaker record_success
stands = refl

complete-repeated_example : complete whole service (moment 107) "acme" hello [] after_second ≡ (
  hit (json_headers "HIT" []) answer,
  record after_second {
    cache =
        some (get (moment 107).looked_up (cache_key whole service "acme" hello) stored_second).1;
  },
)
complete-repeated_example =
    complete-repeated whole service (moment 7) "acme" hello (moment 107) [] (json_headers "MISS" [])
      [] handler after_first after_second answer empty_cache stored_first stored_second refl
      first_run after_first_caches after_second_caches stands (omega arith)

-- A policy that blocks every output of these streams.
abbrev strict : Engine
strict = record {
  input_filters = [];
  output_filters = keyword_filter "strict" block ("leak" ∷ []) ∷ [];
}

abbrev short : List (List ℕ)
short = (1 ∷ 2 ∷ []) ∷ (3 ∷ []) ∷ []

relay-unscanned_example : relay service (some strict) short [] 0 ≡ (pieces short, none)
unfolding joined
relay-unscanned_example = relay-unscanned service strict short [] 0 (omega arith)

relay-Relayed_example :
    Relayed service strict
      (replicate 600 7 ∷ short)
      []
      (relay service (some strict) (replicate 600 7 ∷ short) [] 0)
relay-Relayed_example = relay-Relayed service strict (replicate 600 7 ∷ short) [] 0
