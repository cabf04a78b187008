-- ===== src/Router/Dispatch.antt =====
-- internal/router/router.go: RouteWithProvider and routeWithCanary, which choose how a request is
-- routed. The active rollout of the model is an argument, what the rollout manager answers.
use aigateway.Prelude.{
  ℕ, String, Option, none, some, List, [], ◌∷◌, ◌++◌, not, keep, ltb, str_eq, if◌then◌else◌,
}
use aigateway.Provider.{Provider, get, available}
use aigateway.Rollout.Types.{Rollout}
use aigateway.Router.{
  Router, World, no_route, Result, routed, refused, failed, replied, attempt, try_providers,
  resolve_providers, match_route, route_with_regions,
}
use aigateway.Router.Breaker.{is_open}

-- The baseline providers of a rollout that are registered, the canary left out.
unfoldable pub baseline_of : {F : Type 0} → Router → Rollout F → List Provider
baseline_of router active =
    available router.registry
      (keep (λ name. not (str_eq name active.canary_provider)) active.baseline_providers)

module _ {R : Type 0} (w : World R) where
  -- The flat list of the route, from attempt `i` on.
  unfoldable pub route_flat : String → ℕ → Router → Result R × Router
  route_flat model i router =
      let (found, routes) = resolve_providers w router.registry model router.routes in
      elim found [
        | none ↦ (refused (no_route model), router)
        | some ps ↦
            let (res, cb) = try_providers w model ps i router.breaker in
            (res, record router { routes = routes; breaker = cb })
      ]

  unfoldable pub route_to_baseline :
      {F : Type 0} → String → Rollout F → ℕ → Router → Result R × Router
  route_to_baseline model active i router = elim (baseline_of router active) [
    | [] ↦ route_flat model i router
    | p ∷ ps ↦
        let (res, cb) = try_providers w model (p ∷ ps) i router.breaker in
        (res, record router { breaker = cb })
  ]

  -- The canary that is to be tried: it is drawn, registered, and its breaker is not open.
  unfoldable pub drawn_canary : {F : Type 0} → Rollout F → Router → Option Provider
  drawn_canary active router =
      if ltb w.draw active.current_percentage
      then elim (get active.canary_provider router.registry) [
        | none ↦ none
        | some canary ↦
            if is_open (w.checked 0) canary.name router.breaker then none else some canary
      ]
      else none

  unfoldable pub route_with_canary : {F : Type 0} → String → Rollout F → Router → Result R × Router
  route_with_canary model active router = elim (drawn_canary active router) [
    | none ↦ route_to_baseline model active 1 router
    | some canary ↦
        let (reply, cb) = attempt w 0 canary router.breaker in
        elim reply [
          | replied r ↦ (routed r canary.name "", record router { breaker = cb })
          | failed e ↦ route_to_baseline model active 1 (record router { breaker = cb })
        ]
  ]

  unfoldable pub route_with_provider :
      {F : Type 0} → String → Option (Rollout F) → Router → Result R × Router
  route_with_provider model (some active) router = route_with_canary model active router
  route_with_provider model none router = elim (match_route w model router.routes) [
    | none ↦ route_flat model 0 router
    | some (before, route, after) ↦ elim route.regions [
      | [] ↦ route_flat model 0 router
      | region ∷ regions ↦
          let (res, regions', cb) =
            route_with_regions w router.registry model (region ∷ regions) 0 router.breaker in
          (
            res,
            record router {
              routes = before ++ record route { regions = regions' } ∷ after;
              breaker = cb;
            },
          )
    ]
  ]
