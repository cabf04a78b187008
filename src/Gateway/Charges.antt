-- ===== src/Gateway/Charges.antt =====
-- internal/gateway/handler.go: which requests are charged.
use aigateway.Prelude.{
  ◌≡◌, refl, sym, subst, ap, ◌∙◌, inl, inr, String, Bool, true, false, Option, none, some, arith,
  Bool-cases, Option-cases,
}
use aigateway.Prelude.Dict.{Dict}
use aigateway.Float.{Float64}
use aigateway.Types.{ChatCompletionRequest, ChatCompletionResponse}
use aigateway.Config.Types.{TenantConfig}
use aigateway.Middleware.Http.{HttpRequest, Headers, go, fail, Step-cases}
use aigateway.Cache.{MemoryCache, CacheEntry}
use aigateway.Cache.Lookup.{entries-get}
use aigateway.Gateway.{
  Service, Handler, Moment, tenant_id_of, parse, check_model_budget, check_input_policy,
}
use aigateway.Gateway.Streaming.{handle_stream}
use aigateway.Gateway.Chat.{
  Reply, failure, hit, miss, stream, from_cache, check_output_policy, cache_key, json_headers,
  complete_routed, complete, serve, chat_completion,
}

unfoldable pub is_miss : Reply → Bool
is_miss (miss headers resp) = true
is_miss _ = false

abbrev pub entries_of :
    Option (MemoryCache ChatCompletionResponse) → Option (Dict (CacheEntry ChatCompletionResponse))
entries_of none = none
entries_of (some c) = some c.entries

module _ {fl : Float64} {C : Type 0} where
  -- The usage, the spending, the queue of the database and the cached responses are the same.
  pub record IsUncharged (h h' : Handler fl C) : Type 0 where
    pub usage : h'.usage ≡ h.usage
    pub budget : h'.budget ≡ h.budget
    pub db_queue : h'.db_queue ≡ h.db_queue
    pub cached : entries_of h'.cache ≡ entries_of h.cache

  IsUncharged-trans :
      (h h' h'' : Handler fl C) → IsUncharged h h' → IsUncharged h' h'' → IsUncharged h h''
  IsUncharged-trans h h' h'' a b = record {
    usage = b.usage ∙ a.usage;
    budget = b.budget ∙ a.budget;
    db_queue = b.db_queue ∙ a.db_queue;
    cached = b.cached ∙ a.cached;
  }

  IsUncharged-refl : (h : Handler fl C) → IsUncharged h h
  IsUncharged-refl h = record { usage = refl; budget = refl; db_queue = refl; cached = refl }

  -- What is to be shown of a run, and of one that computes to another.
  Free : Handler fl C → Reply × Handler fl C → Type 0
  Free h p = is_miss p.0 ≡ false → IsUncharged h p.1

  computes : (h : Handler fl C) (p q : Reply × Handler fl C) → p ≡ q → Free h q → Free h p
  computes h p q same free = subst (Free h) (sym same) free

  after : (h h' : Handler fl C) (p : Reply × Handler fl C) → IsUncharged h h' → Free h' p → Free h p
  unfolding Free
  after h h' p first free e = IsUncharged-trans h h' p.1 first (free e)

  module _ (svc : Service fl C) (at : Moment fl.F) (tenant_id : String) where
    pub check_model_budget-IsUncharged :
        (model : String) (headers : Headers) (h : Handler fl C)
        → IsUncharged h (check_model_budget fl svc at tenant_id model headers h).1
    unfolding check_model_budget
    check_model_budget-IsUncharged model headers h = record {
      usage = ground arith;
      budget = ground arith;
      db_queue = ground arith;
      cached = ground arith;
    }

    pub check_input_policy-IsUncharged :
        (req : ChatCompletionRequest) (headers : Headers) (h : Handler fl C)
        → IsUncharged h (check_input_policy fl svc at tenant_id req headers h).1
    unfolding check_input_policy
    check_input_policy-IsUncharged req headers h = record {
      usage = ground arith;
      budget = ground arith;
      db_queue = ground arith;
      cached = ground arith;
    }

    handle_stream-IsUncharged :
        (req : ChatCompletionRequest) (headers : Headers) (h : Handler fl C)
        → IsUncharged h (handle_stream svc at tenant_id req headers h).1
    unfolding handle_stream
    handle_stream-IsUncharged req headers h = record {
      usage = ground arith;
      budget = ground arith;
      db_queue = ground arith;
      cached = ground arith;
    }

    from_cache-entries :
        (key : String) (c : Option (MemoryCache ChatCompletionResponse))
        → entries_of (from_cache fl svc at key c).1 ≡ entries_of c
    unfolding from_cache
    from_cache-entries key none = refl
    from_cache-entries key (some c) = ap some (entries-get at.looked_up key c)

    complete_routed-Free :
        (req : ChatCompletionRequest) (headers : Headers) (h : Handler fl C)
        → Free h (complete_routed fl svc at tenant_id req headers h)
    unfolding Free complete_routed is_miss check_output_policy
    complete_routed-Free req headers h e = record {
      usage = ground arith;
      budget = ground arith;
      db_queue = ground arith;
      cached = ground arith;
    }

    complete-Free :
        (req : ChatCompletionRequest) (headers : Headers) (h : Handler fl C)
        → Free h (complete fl svc at tenant_id req headers h)
    unfolding Free complete
    complete-Free req headers h =
        let key = cache_key fl svc tenant_id req in
        let h0 : Handler fl C = record h { cache = (from_cache fl svc at key h.cache).1 } in
        let looked : IsUncharged h h0 = record {
          usage = refl;
          budget = refl;
          db_queue = refl;
          cached = from_cache-entries key h.cache;
        } in
        elim (Option-cases (from_cache fl svc at key h.cache).0) [
          | inr (resp, found) ↦
              computes h _ (hit (json_headers "HIT" headers) resp, h0) (ground (arith, found))
                (λ e. looked)
          | inl missed ↦
              computes h _ (complete_routed fl svc at tenant_id req headers h0)
                (ground (arith, missed)) (after h h0 _ looked (complete_routed-Free req headers h0))
        ]

    serve-Free :
        (req : ChatCompletionRequest) (headers : Headers) (h : Handler fl C)
        → Free h (serve fl svc at tenant_id req headers h)
    unfolding Free serve
    serve-Free req headers h = elim (Bool-cases req.stream) [
      | inl streams ↦
          let (reply, h') = handle_stream svc at tenant_id req headers h in
          computes h _ (stream reply, h') (ground (arith, streams))
            (λ e. handle_stream-IsUncharged req headers h)
      | inr whole ↦
          computes h _ (complete fl svc at tenant_id req headers h) (ground (arith, whole))
            (complete-Free req headers h)
    ]

    -- The input policy, and what follows it.
    checked-Free :
        (req : ChatCompletionRequest) (headers : Headers) (h : Handler fl C)
        → let (checked, h') = check_input_policy fl svc at tenant_id req headers h in
          Free h (elim checked [
            | fail f ↦ (failure f, h')
            | go u ↦ serve fl svc at tenant_id req headers h'
          ])
    unfolding Free
    checked-Free req headers h =
        let (checked, h') = check_input_policy fl svc at tenant_id req headers h in
        let first = check_input_policy-IsUncharged req headers h in
        elim (Step-cases checked) [
          | inl (f, failed) ↦ computes h _ (failure f, h') (ground (arith, failed)) (λ e. first)
          | inr (u, went) ↦
              computes h _ (serve fl svc at tenant_id req headers h') (ground (arith, went))
                (after h h' _ first (serve-Free req headers h'))
        ]

  -- A request that is refused, answered from the cache or streamed changes nothing of what tenants have
  -- used and spent, queues nothing for the database and stores no response.
  pub chat_completion-IsUncharged :
      (svc : Service fl C) (at : Moment fl.F) (r : HttpRequest) (tenant : Option TenantConfig)
      (headers : Headers) (h : Handler fl C)
      → is_miss (chat_completion fl svc at r tenant headers h).0 ≡ false
      → IsUncharged h (chat_completion fl svc at r tenant headers h).1
  unfolding chat_completion Free
  chat_completion-IsUncharged svc at r tenant headers h =
      elim (Step-cases (parse fl svc r headers)) [
        | inl (f, failed) ↦
            computes h _ (failure f, h) (ground (arith, failed)) (λ e. IsUncharged-refl h)
        | inr (req, parsed) ↦
            let id = tenant_id_of tenant in
            let (budgeted, h') = check_model_budget fl svc at id req.model headers h in
            let first = check_model_budget-IsUncharged svc at id req.model headers h in
            elim (Step-cases budgeted) [
              | inl (f, failed) ↦
                  computes h _ (failure f, h') (ground (arith, parsed, failed)) (λ e. first)
              | inr (headers', went) ↦
                  computes h _ _ (ground (arith, parsed, went))
                    (after h h' _ first (checked-Free svc at id req headers' h'))
            ]
      ]
