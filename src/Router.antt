-- ===== src/Router.antt =====
-- internal/router/router.go. The world of a request is a parameter: for its attempts, numbered in
-- order, the clock readings of the breaker and what the providers answer, the draw of the canary,
-- and the pattern match of the standard library. One request is handled at a time.
pub mod Alias
pub mod Breaker
pub mod Selection
pub mod Attempts
pub mod Dispatch
pub mod Routing
pub mod Canary
pub mod Liveness
pub mod Stream
mod Tests
use aigateway.Prelude.{
  ℕ, ◌+◌, String, Bool, true, false, Option, none, some, List, [], ◌∷◌, ◌++◌, not, keep, map, ltb,
  str_eq, if◌then◌else◌,
}
use aigateway.Config.Types.{RouteConfig}
use aigateway.Provider.{Provider, Registry, get, available}
use aigateway.Rollout.Types.{Rollout}
use Breaker.{CircuitBreaker, new_circuit_breaker, is_open, record_failure, record_success}
use Selection.{Strategy, new_strategy, select}

pub record Region : Type 0 where
  pub name : String
  pub providers : List String
  pub strategy : Strategy

pub record Route : Type 0 where
  pub pattern : String
  pub providers : List String
  pub strategy : Strategy
  pub regions : List Region

pub record Router : Type 0 where
  pub routes : List Route
  pub registry : Registry
  pub breaker : CircuitBreaker

pub new_router : {F : Type 0} → List (RouteConfig F) → Registry → Router
new_router cfg registry = record {
  routes =
      map
        (λ rc. record {
          pattern = rc.match.model;
          providers = rc.providers;
          strategy = new_strategy rc.strategy;
          regions =
              map
                (λ reg. record {
                  name = reg.name;
                  providers = reg.providers;
                  strategy = new_strategy reg.strategy;
                })
                rc.regions;
        })
        cfg;
  registry = registry;
  breaker = new_circuit_breaker 3 30_000_000_000;
}

-- What a call of a provider comes back with.
pub data Reply (R : Type 0) : Type 0 where
  replied : R → Reply R
  failed : String → Reply R

pub record World (R : Type 0) : Type 0 where
  -- Of attempt `i`: the clock at IsOpen, the answer, the clock at RecordFailure.
  pub checked : ℕ → ℕ
  pub answered : ℕ → String → Reply R
  pub recorded : ℕ → ℕ
  -- rand.Intn(100)
  pub draw : ℕ
  -- filepath.Match, an error being no match.
  pub matches : String → String → Bool

pub data Error : Type 0 where
  all_failed : String → Error
  none_available none_in_regions none_in_regions_stream no_route : String → Error

pub data Result (R : Type 0) : Type 0 where
  routed : R → String → String → Result R
  refused : Error → Result R

-- How a walk along providers ends: by an answer, or with the last error, if any was met.
pub data Outcome (R : Type 0) : Type 0 where
  served : R → String → Outcome R
  gave_up : Option String → Outcome R

module _ {R : Type 0} (w : World R) where
  -- One provider that is not skipped: the call, and the report to the breaker.
  unfoldable pub attempt : ℕ → Provider → CircuitBreaker → Reply R × CircuitBreaker
  attempt i p cb = elim (w.answered i p.name) [
    | failed e ↦ (failed e, record_failure (w.recorded i) p.name cb)
    | replied r ↦ (replied r, record_success p.name cb)
  ]

  -- The loop over providers, from attempt `i` on.
  unfoldable pub walk :
      List Provider → Option String → ℕ → CircuitBreaker → Outcome R × ℕ × CircuitBreaker
  unfolding attempt
  walk [] last i cb = (gave_up last, i, cb)
  walk (p ∷ ps) last i cb = elim (is_open (w.checked i) p.name cb) [
    | true ↦ walk ps last (i + 1) cb
    | false ↦
        let (reply, cb') = attempt i p cb in
        elim reply [
          | failed e ↦ walk ps (some e) (i + 1) cb'
          | replied r ↦ (served r p.name, i + 1, cb')
        ]
  ]

  abbrev pub answer : String → Outcome R → Result R
  answer model (served r name) = routed r name ""
  answer model (gave_up (some e)) = refused (all_failed e)
  answer model (gave_up none) = refused (none_available model)

  unfoldable pub try_providers :
      String → List Provider → ℕ → CircuitBreaker → Result R × CircuitBreaker
  unfolding walk
  try_providers model ps i cb = let (o, _, cb') = walk ps none i cb in (answer model o, cb')

  -- The first matching route with a provider that is registered, in the order of its strategy.
  unfoldable pub resolve_providers :
      Registry → String → List Route → Option (List Provider) × List Route
  resolve_providers reg model [] = (none, [])
  resolve_providers reg model (route ∷ routes) =
      let (found, routes') = resolve_providers reg model routes in
      let skip : Option (List Provider) × List Route = (found, route ∷ routes') in
      if w.matches route.pattern model
      then elim (available reg route.providers) [
        | [] ↦ skip
        | p ∷ ps ↦
            let (ordered, strategy) = select route.strategy (p ∷ ps) in
            (some ordered, record route { strategy = strategy } ∷ routes)
      ]
      else skip

  -- The first matching route, with those before and after it.
  unfoldable pub match_route : String → List Route → Option (List Route × Route × List Route)
  match_route model [] = none
  match_route model (route ∷ routes) =
      let rest = match_route model routes in
      if w.matches route.pattern model
      then some ([], route, routes)
      else elim rest [ none ↦ none | some (before, r, after) ↦ some (route ∷ before, r, after) ]

  -- The regions one after the other; a region with no provider that answers gives way to the next.
  unfoldable pub route_with_regions :
      Registry → String → List Region → ℕ → CircuitBreaker → Result R × List Region × CircuitBreaker
  unfolding walk
  route_with_regions reg model [] i cb = (refused (none_in_regions model), [], cb)
  route_with_regions reg model (region ∷ regions) i cb = elim (available reg region.providers) [
    | [] ↦
        let (res, regions', cb') = route_with_regions reg model regions i cb in
        (res, region ∷ regions', cb')
    | p ∷ ps ↦
        let (ordered, strategy) = select region.strategy (p ∷ ps) in
        let region' : Region = record region { strategy = strategy } in
        let (o, i', cb') = walk ordered none i cb in
        elim o [
          | served r name ↦ (routed r name region.name, region' ∷ regions, cb')
          | gave_up last ↦
              let (res, regions', cb'') = route_with_regions reg model regions i' cb' in
              (res, region' ∷ regions', cb'')
        ]
  ]
