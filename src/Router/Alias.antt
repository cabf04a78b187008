-- ===== src/Router/Alias.antt =====
-- internal/router/alias.go: friendly names of models.
use aigateway.Prelude.{String, Option, none, some, []}
use aigateway.Prelude.Dict.{Dict, lookup}

pub record ModelAlias : Type 0 where
  pub aliases : Dict String

unfoldable pub new_model_alias : Option (Dict String) → ModelAlias
new_model_alias none = record { aliases = [] }
new_model_alias (some aliases) = record { aliases = aliases }

unfoldable pub resolve : String → ModelAlias → String
resolve model a = elim (lookup model a.aliases) [ none ↦ model | some actual ↦ actual ]

unfoldable pub list_aliases : ModelAlias → Dict String
list_aliases a = a.aliases
