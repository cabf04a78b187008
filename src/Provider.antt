-- ===== src/Provider.antt =====
-- internal/provider: a provider as the router sees it, its name, and the registry
-- (internal/provider/registry.go). What a provider answers is given by the router's world.
pub mod Client
pub mod OpenAi
pub mod AzureOpenAi
pub mod Anthropic
pub mod Gemini
pub mod Bedrock
pub mod Ollama
pub mod Mock
pub mod Streams
pub mod Translation
pub mod Answers
pub mod Counts
pub mod Agreement
mod Tests
use aigateway.Prelude.{◌≡◌, String, Option, none, some, List, [], ◌∷◌, ◌++◌, arith, eq_iff}
use aigateway.Types.{Model}
use aigateway.Prelude.Dict.{Dict, lookup, insert, lookup-insert}

pub record Provider : Type 0 where
  pub name : String

abbrev pub Registry : Type 0
Registry = Dict Provider

abbrev pub new_registry : Registry
new_registry = []

unfoldable pub register : Provider → Registry → Registry
register p reg = insert p.name p reg

unfoldable pub get : String → Registry → Option Provider
get name reg = lookup name reg

-- The providers of a list of names, those that are missing left out: the loop of the router.
unfoldable pub available : Registry → List String → List Provider
available reg [] = []
available reg (name ∷ names) =
    let rest = available reg names in elim (get name reg) [ none ↦ rest | some p ↦ p ∷ rest ]

abbrev values_of : Registry → List Provider
values_of [] = []
values_of ((name, p) ∷ reg) = p ∷ values_of reg

-- The providers, in the order of a range.
unfoldable pub list : (Registry → Registry) → Registry → List Provider
list order reg = values_of (order reg)

-- The loop of `AllModels`, over what each provider answers; one that fails is left out.
unfoldable pub models_from : (Provider → Option (List Model)) → List Provider → List Model
models_from models [] = []
models_from models (p ∷ ps) =
    let rest = models_from models ps in elim (models p) [ none ↦ rest | some ms ↦ ms ++ rest ]

unfoldable pub all_models :
    (Provider → Option (List Model)) → (Registry → Registry) → Registry → List Model
unfolding list models_from
all_models models order reg = models_from models (list order reg)

register_all : List Provider → Registry → Registry
register_all [] reg = reg
register_all (p ∷ ps) reg = register_all ps (register p reg)

-- A registry that was built by `Register` returns the provider of the name that is asked for.
pub record IsNamed (reg : Registry) : Type 0 where
  pub named : (k : String) (p : Provider) → get k reg ≡ some p → p.name ≡ k

pub register-IsNamed : (p : Provider) (reg : Registry) → IsNamed reg → IsNamed (register p reg)
unfolding register get
register-IsNamed p reg h = record {
  named = λ k q found. ground (arith, eq_iff p.name k, lookup-insert p.name k p reg, h.named k q);
}
