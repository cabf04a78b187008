-- ===== src/Rollout/Store.antt =====
-- internal/rollout/memory_store.go: the map of rollouts by ID. A method returns `none` where the
-- source returns an error. The order in which `GetByModel` and `List` range over the map, and the
-- sort of `List`, are arguments.
use aigateway.Prelude.{
  String, Option, none, some, List, [], ◌∷◌, ◌&&◌, map, take, if◌then◌else◌, str_eq,
}
use aigateway.Prelude.Dict.{Dict, lookup, insert}
use aigateway.Rollout.Types.{Rollout, is_active_state}

abbrev pub MemoryStore : Type 0 → Type 0
MemoryStore F = Dict (Rollout F)

module _ {F : Type 0} where
  -- Create: an error if the ID is taken.
  unfoldable pub create : Rollout F → MemoryStore F → Option (MemoryStore F)
  create r s = elim (lookup r.id s) [ none ↦ some (insert r.id r s) | some _ ↦ none ]

  unfoldable pub get : String → MemoryStore F → Option (Rollout F)
  get id s = lookup id s

  -- Update: an error if the ID is not there.
  unfoldable pub update : Rollout F → MemoryStore F → Option (MemoryStore F)
  update r s = elim (lookup r.id s) [ none ↦ none | some _ ↦ some (insert r.id r s) ]

  -- The loop of GetByModel.
  unfoldable pub find_active : String → MemoryStore F → Option (Rollout F)
  find_active model [] = none
  find_active model ((_, r) ∷ rest) =
      if str_eq r.route_model model && is_active_state r.state
      then some r
      else find_active model rest

  unfoldable pub get_by_model :
      (MemoryStore F → MemoryStore F) → String → MemoryStore F → Option (Rollout F)
  get_by_model order model s = find_active model (order s)

  -- List: sorted by creation, the latest first, and cut after 50.
  unfoldable pub list :
      (MemoryStore F → MemoryStore F)
      → (List (Rollout F) → List (Rollout F))
      → MemoryStore F
      → List (Rollout F)
  list order sort s = take 50 (sort (map (λ e. e.1) (order s)))
