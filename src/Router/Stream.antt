-- ===== src/Router/Stream.antt =====
-- internal/router/router.go: RouteStream. The replies of the world are those of the streaming calls.
use aigateway.Prelude.{
  ℕ, ◌≡◌, refl, String, Option, none, some, List, [], ◌∷◌, ◌++◌, arith, inl, inr, Option-cases,
}
use aigateway.Provider.{Provider, Registry, available}
use aigateway.Rollout.Types.{Rollout}
use aigateway.Router.{
  Router, Region, World, Error, all_failed, none_available, none_in_regions, none_in_regions_stream,
  no_route, Result, routed, refused, Outcome, answer, served, gave_up, failed, replied, attempt,
  walk, try_providers, resolve_providers, match_route, route_with_regions,
}
use aigateway.Router.Breaker.{CircuitBreaker}
use aigateway.Router.Dispatch.{route_flat, drawn_canary, route_with_provider}
use aigateway.Router.Selection.{Strategy, priority, round_robin, select}
use aigateway.Router.Routing.{List-cases}

pub data Streamed (R : Type 0) : Type 0 where
  streaming : R → Streamed R
  stopped : Error → Streamed R

-- The result of a walk along a list, of which a stream says neither its provider nor its region.
abbrev pub strip : {R : Type 0} → Result R → Streamed R
strip (routed r name region) = streaming r
strip (refused e) = stopped e

-- The error of the regions has the mark "(stream)"; the others are those of any request.
abbrev pub marked : Error → Error
marked (all_failed e) = all_failed e
marked (none_available model) = none_available model
marked (none_in_regions model) = none_in_regions_stream model
marked (none_in_regions_stream model) = none_in_regions_stream model
marked (no_route model) = no_route model

-- What becomes of a result as a stream's.
abbrev pub as_stream : {R : Type 0} → Result R → Streamed R
as_stream (routed r name region) = streaming r
as_stream (refused e) = stopped (marked e)

module _ {R : Type 0} (w : World R) where
  unfoldable pub stream_regions :
      Registry
      → String
      → List Region
      → ℕ
      → CircuitBreaker
      → Streamed R × List Region × CircuitBreaker
  stream_regions reg model [] i cb = (stopped (none_in_regions_stream model), [], cb)
  stream_regions reg model (region ∷ regions) i cb =
      let (ordered, strategy) = select region.strategy (available reg region.providers) in
      let region' : Region = record region { strategy = strategy } in
      let (o, i', cb') = walk w ordered none i cb in
      elim o [
        | served r name ↦ (streaming r, region' ∷ regions, cb')
        | gave_up last ↦
            let (res, regions', cb'') = stream_regions reg model regions i' cb' in
            (res, region' ∷ regions', cb'')
      ]

  unfoldable pub stream_flat : String → ℕ → Router → Streamed R × Router
  stream_flat model i router =
      let (found, routes) = resolve_providers w router.registry model router.routes in
      elim found [
        | none ↦ (stopped (no_route model), router)
        | some ps ↦
            let (res, cb) = try_providers w model ps i router.breaker in
            (strip res, record router { routes = routes; breaker = cb })
      ]

  -- What follows the canary, from attempt `i` on.
  unfoldable pub stream_routes : String → ℕ → Router → Streamed R × Router
  stream_routes model i router = elim (match_route w model router.routes) [
    | none ↦ stream_flat model i router
    | some (before, route, after) ↦ elim route.regions [
      | [] ↦ stream_flat model i router
      | region ∷ regions ↦
          let (res, regions', cb) =
            stream_regions router.registry model (region ∷ regions) i router.breaker in
          (
            res,
            record router {
              routes = before ++ record route { regions = regions' } ∷ after;
              breaker = cb;
            },
          )
    ]
  ]

  unfoldable pub route_stream :
      {F : Type 0} → String → Option (Rollout F) → Router → Streamed R × Router
  route_stream model none router = stream_routes model 0 router
  route_stream model (some active) router = elim (drawn_canary w active router) [
    | none ↦ stream_routes model 1 router
    | some canary ↦
        let (reply, cb) = attempt w 0 canary router.breaker in
        elim reply [
          | replied r ↦ (streaming r, record router { breaker = cb })
          | failed e ↦ stream_routes model 1 (record router { breaker = cb })
        ]
  ]

  -- The result of a request, without what a stream does not say, and with its mark of the regions' error.
  abbrev pub stripped : {S : Type 0} → Result R × S → Streamed R × S
  stripped (res, s) = (as_stream res, s)

  abbrev stripped_regions :
      Result R × List Region × CircuitBreaker → Streamed R × List Region × CircuitBreaker
  stripped_regions (res, regions, cb) = (as_stream res, regions, cb)

  select_nil : (s : Strategy) → select {A = Provider} s [] ≡ ([], s)
  unfolding select
  select_nil priority = refl
  select_nil (round_robin counter) = refl

  -- Neither a walk along a list nor the lack of a route yields the error of the regions.
  answer-unmarked :
      (model : String) (o : Outcome R) → strip (answer w model o) ≡ as_stream (answer w model o)
  answer-unmarked model (served r name) = refl
  answer-unmarked model (gave_up none) = refl
  answer-unmarked model (gave_up (some e)) = refl

  flat_agrees :
      (model : String) (i : ℕ) (router : Router)
      → stream_flat model i router ≡ stripped (route_flat w model i router)
  unfolding stream_flat route_flat try_providers
  flat_agrees model i router =
      elim (Option-cases (resolve_providers w router.registry model router.routes).0) [
        | inl e ↦ ground (arith, e)
        | inr (ps, e) ↦ ground (arith, e, answer-unmarked model (walk w ps none i router.breaker).0)
      ]

  walk_nil :
      (last : Option String) (i : ℕ) (cb : CircuitBreaker)
      → walk w [] last i cb ≡ (gave_up last, i, cb)
  unfolding walk
  walk_nil last i cb = refl

  region_agrees :
      (reg : Registry) (model : String) (x : Region) (xs : List Region)
      → ((i : ℕ) (cb : CircuitBreaker)
          → stream_regions reg model xs i cb
            ≡ stripped_regions (route_with_regions w reg model xs i cb))
      → (i : ℕ) (cb : CircuitBreaker)
      → stream_regions reg model (x ∷ xs) i cb
        ≡ stripped_regions (route_with_regions w reg model (x ∷ xs) i cb)
  unfolding stream_regions route_with_regions
  region_agrees reg model x xs rest i cb = elim (List-cases (available reg x.providers)) [
    | inl e ↦ ground (arith, e, select_nil x.strategy, walk_nil none i cb, rest i cb)
    | inr (p, ps, e) ↦
        let (_, i', cb') = walk w (select x.strategy (p ∷ ps)).0 none i cb in
        ground (arith, e, rest i' cb')
  ]

  regions_agree :
      (reg : Registry) (model : String) (regions : List Region) (i : ℕ) (cb : CircuitBreaker)
      → stream_regions reg model regions i cb
        ≡ stripped_regions (route_with_regions w reg model regions i cb)
  unfolding stream_regions route_with_regions
  regions_agree reg model [] i cb = refl
  regions_agree reg model (x ∷ xs) i cb =
      region_agrees reg model x xs (regions_agree reg model xs) i cb

  -- Where no rollout is active, a stream is routed as any other request: it is answered by the same
  -- provider's reply or fails with the same error, but for the mark "(stream)" of the regions' error, and
  -- leaves the router the same.
  pub route_stream_agrees :
      (F : Type 0) (model : String) (router : Router)
      → route_stream {F = F} model none router
        ≡ stripped (route_with_provider w {F = F} model none router)
  unfolding route_stream stream_routes route_with_provider
  route_stream_agrees F model router = elim (Option-cases (match_route w model router.routes)) [
    | inl e ↦ ground (arith, e, flat_agrees model 0 router)
    | inr ((before, route, after), e) ↦ elim (List-cases route.regions) [
      | inl none_there ↦ ground (arith, e, none_there, flat_agrees model 0 router)
      | inr (x, xs, there) ↦
          ground (arith, e, there, regions_agree router.registry model (x ∷ xs) 0 router.breaker)
    ]
  ]
