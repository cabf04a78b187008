-- ===== src/Router/Tests.antt =====
-- Runs of the router of internal/router, and the theorems at them.
use mathlib.Core.List.{Memᴰ}
use aigateway.Prelude.{
  ℕ, ◌+◌, ◌≤◌, ◌<◌, ◌≡◌, ◌↔◌, refl, String, true, false, none, some, List, [], ◌∷◌, arith, length,
  get_elem?, str_eq, if◌then◌else◌,
}
use aigateway.Prelude.Dict.{lookup, insert}
use aigateway.Provider.{Provider, Registry, register, get, available, IsNamed, register-IsNamed}
use aigateway.Rollout.Types.{Rollout, running}
use aigateway.Router.{
  World, Region, Route, Router, routed, failed, replied, try_providers, route_with_regions,
}
use aigateway.Router.Breaker.{
  CircuitBreaker, new_circuit_breaker, is_open, record_failure, record_success, count_of, after,
  streak, last_failed, is_open_exact,
}
use aigateway.Router.Breaker
use aigateway.Router.Selection.{priority, round_robin, select}
use aigateway.Router.Selection.Fairness.{selects, round_robin_fair}
use aigateway.Router.Attempts.{Explained, try_providers_exact}
use aigateway.Router.Dispatch.{baseline_of, route_with_canary, route_with_provider}
use aigateway.Router.Canary.{canary_exact}
use aigateway.Router.Stream.{route_stream, stripped, route_stream_agrees}
use aigateway.Router.Liveness.{IsClosed, Works, fewer-IsClosed, route_with_regions_serves}

abbrev openai : Provider
openai = record { name = "openai" }

abbrev azure : Provider
azure = record { name = "azure" }

abbrev providers : List Provider
providers = openai ∷ azure ∷ []

abbrev registry : Registry
registry = ("openai", openai) ∷ ("azure", azure) ∷ []

-- OpenAI is down; Azure answers 7; the patterns are plain names.
abbrev world : World ℕ
world = record {
  checked = λ i. 100 + i;
  answered = λ i name. if str_eq name "azure" then replied 7 else failed "down";
  recorded = λ i. 100 + i;
  draw = 42;
  matches = str_eq;
}

abbrev breaker : CircuitBreaker
breaker = new_circuit_breaker 3 30

abbrev reports : List Breaker.Report
reports =
    Breaker.failed 90 "openai"
    ∷ Breaker.failed 80 "openai"
    ∷ Breaker.succeeded "azure"
    ∷ Breaker.failed 70 "openai"
    ∷ []

is_open_exact_example : (is_open 100 "openai" (after reports breaker) ≡ true) ↔ (
    (3 ≤ streak "openai" reports)
    × ((t : ℕ) × (last_failed "openai" reports ≡ some t) × (100 ≤ t + 30)))
is_open_exact_example = is_open_exact 3 30 "openai" 100 reports (omega arith)

try_providers_exact_example :
    let (res, cb') = try_providers world "gpt-4o" providers 0 breaker in
    Explained world "gpt-4o" providers 0 breaker res cb'
try_providers_exact_example = try_providers_exact world "gpt-4o" providers 0 breaker

abbrev routes : List Route
routes =
    record { pattern = "claude"; providers = "openai" ∷ []; strategy = priority; regions = [] }
    ∷ record {
      pattern = "gpt-4o";
      providers = "azure" ∷ "openai" ∷ [];
      strategy = round_robin 0;
      regions = [];
    }
    ∷ []

azure-Works : Works world "azure"
unfolding Works
azure-Works = λ i. (7, refl)

-- Azure has failed once since it last answered, of three times that open the breaker.
abbrev shaken : CircuitBreaker
shaken = record_failure 90 "azure" (record_success "azure" breaker)

shaken-IsClosed : IsClosed world "azure" shaken
unfolding record_failure record_success count_of new_circuit_breaker lookup insert
shaken-IsClosed = fewer-IsClosed world "azure" shaken (omega arith)

abbrev europe : Region
europe = record { name = "europe"; providers = "openai" ∷ []; strategy = priority }

abbrev america : Region
america = record { name = "america"; providers = "azure" ∷ []; strategy = round_robin 0 }

route_with_regions_serves_example :
    (r : ℕ) × (n : String) × (at : String) × ((route_with_regions world registry "gpt-4o"
        (europe ∷ america ∷ [])
        0
        shaken).0
      ≡ routed r n at)
unfolding available get lookup
route_with_regions_serves_example =
    route_with_regions_serves world "azure" azure "gpt-4o" registry america (europe ∷ america ∷ [])
      0 shaken refl (Memᴰ.tail (Memᴰ.head refl)) ∣ Memᴰ.head refl ∣₁ azure-Works shaken-IsClosed

abbrev router : Router
router = record {
  routes = routes;
  registry = register azure (register openai []);
  breaker = breaker;
}

empty-IsNamed : IsNamed []
unfolding get lookup
empty-IsNamed = record { named = λ k p found. absurd (cc) }

abbrev rollout : Rollout ℕ
rollout = record {
  id = "rollout";
  route_model = "gpt-4o";
  baseline_providers = "openai" ∷ "azure" ∷ [];
  canary_provider = "azure";
  stages = 10 ∷ 50 ∷ 100 ∷ [];
  current_stage = 1;
  current_percentage = 50;
  state = running;
  observation_window = 60;
  error_threshold = 5;
  latency_p95_threshold = 300;
  stage_started_at = 20;
  created_at = 10;
  updated_at = 20;
  completed_at = none;
  rollback_reason = "";
}

canary_exact_example :
    ((route_with_canary world "gpt-4o" rollout router).0 ≡ routed 7 "azure" "") ↔ (
      (42 < 50)
      × ((canary : Provider) × (get "azure" router.registry ≡ some canary)
          × (is_open 100 canary.name router.breaker ≡ false)
          × (world.answered 0 canary.name ≡ replied 7)))
unfolding baseline_of available get register insert lookup
canary_exact_example =
    canary_exact world "gpt-4o" rollout router 7
      (register-IsNamed azure _ (register-IsNamed openai [] empty-IsNamed)) (λ e. ground (arith, e))

round_robin_fair_example :
    (m : ℕ) × (m < length providers)
    × (get_elem? (select (selects m (round_robin 5) providers) providers).0 0
        ≡ get_elem? providers 1)
round_robin_fair_example = round_robin_fair 5 providers 1 (omega arith) (omega arith)

route_stream_agrees_example :
    route_stream world {F = ℕ} "gpt-4o" none router
    ≡ stripped world (route_with_provider world {F = ℕ} "gpt-4o" none router)
route_stream_agrees_example = route_stream_agrees world ℕ "gpt-4o" router
