-- ===== src/Gateway/Repeat.antt =====
-- internal/gateway/handler.go: a request that is repeated.
use aigateway.Prelude.{
  ℕ, ◌≡◌, sym, subst, ◌+◌, ◌≤◌, String, some, arith, Option-cases, inl, inr, le→ltb-false,
}
use aigateway.Prelude.Dict.{lookup}
use aigateway.Float.{Float64}
use aigateway.Types.{ChatCompletionRequest, ChatCompletionResponse}
use aigateway.Middleware.Http.{Headers}
use aigateway.Cache.{MemoryCache, get, set}
use aigateway.Cache.Lookup.{get-set, ttl-get}
use aigateway.Gateway.{Service, Handler, Moment}
use aigateway.Gateway.Chat.{
  hit, miss, json_headers, when_present, cache_key, from_cache, check_output_policy, account,
  complete_routed, complete,
}

module _ (fl : Float64) {C : Type 0} (svc : Service fl C) (at : Moment fl.F) (tenant_id : String)
    (req : ChatCompletionRequest) where
  -- The response is stored under the request's key.
  complete_routed-stores :
      (headers shown : Headers) (h h' : Handler fl C) (resp : ChatCompletionResponse)
      → complete_routed fl svc at tenant_id req headers h ≡ (miss shown resp, h')
      → h'.cache
        ≡ when_present fl svc
            (set at.order at.swept at.stored (cache_key fl svc tenant_id req) resp)
            h.cache
  unfolding complete_routed check_output_policy account
  complete_routed-stores headers shown h h' resp e = ground arith

  complete-stores :
      (headers shown : Headers) (h h' : Handler fl C) (resp : ChatCompletionResponse)
      (c : MemoryCache ChatCompletionResponse)
      → h.cache ≡ some c
      → complete fl svc at tenant_id req headers h ≡ (miss shown resp, h')
      → h'.cache
        ≡ some (
            set at.order at.swept at.stored
              (cache_key fl svc tenant_id req)
              resp
              (get at.looked_up (cache_key fl svc tenant_id req) c).1)
  unfolding complete from_cache
  complete-stores headers shown h h' resp c cached e =
      let key = cache_key fl svc tenant_id req in
      let h0 : Handler fl C = record h { cache = (from_cache fl svc at key h.cache).1 } in
      elim (Option-cases (from_cache fl svc at key h.cache).0) [
        | inr (other, found) ↦ ground (arith, found)
        | inl missed ↦
            ground (arith, missed, cached, complete_routed-stores headers shown h0 h' resp)
      ]

  get-same :
      (t : ℕ) (key : String) (c d : MemoryCache ChatCompletionResponse)
      → lookup key d.entries ≡ lookup key c.entries
      → (get t key d).0 ≡ (get t key c).0
  unfolding get
  get-same t key c d same = elim (Option-cases (lookup key c.entries)) [
    | inl e ↦ ground (arith, same, e)
    | inr (entry, e) ↦ ground (arith, same, e)
  ]

  -- When a provider has answered a request that passed the checks, and the handler has a cache, the same
  -- request of the same tenant gets the same response from the cache, at any later state of the handler,
  -- whatever requests it has served in between, under two conditions: the entry that stood under the
  -- request's key after that answer still stands under it, so that it was neither evicted nor replaced,
  -- and the time to live has not passed since the response was stored. Nothing of the handler changes but
  -- the cache, by the lookup, so no provider is called and nothing is charged.
  pub complete-repeated :
      (later : Moment fl.F) (headers shown again : Headers) (h h' h'' : Handler fl C)
      (resp : ChatCompletionResponse) (c c' c'' : MemoryCache ChatCompletionResponse)
      → h.cache ≡ some c
      → complete fl svc at tenant_id req headers h ≡ (miss shown resp, h')
      → h'.cache ≡ some c'
      → h''.cache ≡ some c''
      → lookup (cache_key fl svc tenant_id req) c''.entries
        ≡ lookup (cache_key fl svc tenant_id req) c'.entries
      → later.looked_up ≤ at.stored + c.ttl
      → complete fl svc later tenant_id req again h'' ≡ (
        hit (json_headers "HIT" again) resp,
        record h'' { cache = some (get later.looked_up (cache_key fl svc tenant_id req) c'').1 },
      )
  unfolding complete from_cache
  complete-repeated later headers shown again h h' h'' resp c c' c'' cached e after standing same
        in_time =
      let key = cache_key fl svc tenant_id req in
      let c0 = (get at.looked_up key c).1 in
      let stored = complete-stores headers shown h h' resp c cached e in
      let (found, hits, misses) = get-set at.order at.swept at.stored later.looked_up key resp c0 in
      let fresh = le→ltb-false (at.stored + c.ttl) later.looked_up in_time in
      let is_set : c' ≡ set at.order at.swept at.stored key resp c0 =
        ground (arith, after, stored) in
      let hits_then : (get later.looked_up key c').0 ≡ some resp =
        subst (λ m. (get later.looked_up key m).0 ≡ some resp) (sym is_set)
          (ground (arith, found, ttl-get at.looked_up key c, fresh)) in
      ground (arith, standing, get-same later.looked_up key c' c'' same, hits_then)
