-- ===== src/Startup/Tests.antt =====
-- Runs of the start of cmd/aegisflow/main.go, and the theorems at them.
use aigateway.Prelude.{◌≡◌, refl, String, true, false, none, List, [], ◌∷◌}
use aigateway.Config.Sample.{empty}
use aigateway.RateLimit.{new_memory_limiter}
use aigateway.Startup.{max_rpm, request_limiter}
use aigateway.Startup.Adapters.{Adapter, openai, ollama, adapter_of, init_adapters}
use aigateway.Provider.OpenAi.{new_openai_provider, new_groq_provider}
use aigateway.Provider.Ollama.{new_ollama_provider}
use aigateway.Config.Types.{ProviderConfig}
use aigateway.Prelude.Dict.{Dict, insert}

limit_60 : (request_limiter empty).limit ≡ 60
unfolding request_limiter max_rpm new_memory_limiter
limit_60 = refl

abbrev enabled_provider : String → String → ProviderConfig
enabled_provider name type = record {
  name = name;
  type = type;
  enabled = true;
  default = false;
  base_url = "";
  api_key_env = "KEY";
  models = [];
  timeout = 0;
  max_retries = 0;
  api_version = "";
  config = [];
  region = "";
}

-- One of an unknown type, one that is not enabled, and two of a name.
abbrev provider_configs : List ProviderConfig
provider_configs =
    enabled_provider "local" "ollama"
    ∷ enabled_provider "other" "cohere"
    ∷ record (enabled_provider "off" "gemini") { enabled = false }
    ∷ enabled_provider "fast" "openai"
    ∷ enabled_provider "fast" "groq"
    ∷ []

abbrev adapters : Dict Adapter
adapters = init_adapters (λ env. "k") (λ text. none) provider_configs []

-- Of the two of a name, the later one is registered.
registered :
    adapters
    ≡ (
      "local",
      ollama (record { name = "local"; base_url = ""; models = []; timeout = 120_000_000_000 }),
    )
      ∷ ("fast", openai (new_groq_provider (λ env. "k") "fast" "KEY" [] 0))
      ∷ []
unfolding init_adapters adapter_of insert new_ollama_provider new_groq_provider new_openai_provider
registered = refl
