-- ===== src/Startup/Registered.antt =====
-- cmd/aegisflow/main.go: which adapters `initProviders` leaves in the registry of
-- internal/provider/registry.go, said without its loop.
use mathlib.Core.List.{Memᴰ}
use aigateway.Prelude.{◌≡◌, ℕ, String, true, Option, none, some, List, ◌∷◌, ◌++◌, All}
use aigateway.Prelude.Dict.{Dict}
use aigateway.Config.Types.{ProviderConfig}
use aigateway.Startup.Adapters.{Adapter, init_adapters}
use aigateway.Startup.Kinds.{known_types, Fits}

-- An entry that asks for an adapter of the name.
abbrev pub Asks : String → ProviderConfig → Type 0
Asks name pc = (pc.enabled ≡ true) × (pc.name ≡ name) × Memᴰ pc.type known_types

module _ (getenv : String → String) (parse_duration : String → Option ℕ) where
  abbrev start : List ProviderConfig → Dict Adapter → Dict Adapter
  start = init_adapters getenv parse_duration

  -- The last entry that asks for an adapter of the name, with the adapter.
  abbrev LastOf : String → List ProviderConfig → Adapter → Type 0
  LastOf name pcs a =
      (before : List ProviderConfig) × (pc : ProviderConfig) × (after : List ProviderConfig) × (pcs
        ≡ before ++ pc ∷ after)
      × Asks name pc
      × Fits getenv parse_duration pc a
      × All (λ q. ¬ Asks name q) after

  -- What stands under a name.
  abbrev pub Described : String → List ProviderConfig → Option Adapter → Type 0
  Described name pcs none = All (λ q. ¬ Asks name q) pcs
  Described name pcs (some a) = LastOf name pcs a
