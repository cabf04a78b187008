-- ===== src/Startup/Adapters.antt =====
-- cmd/aegisflow/main.go: `initProviders` with the adapters that it makes; the registry of
-- internal/provider/registry.go keeps them under their names. The environment and the parsing of a
-- duration are parameters.
use aigateway.Prelude.{ℕ, ◌^◌, String, Option, none, some, List, [], ◌∷◌, str_eq, if◌then◌else◌}
use aigateway.Prelude.Dict.{Dict, lookup, insert}
use aigateway.Config.Types.{ProviderConfig}
use aigateway.Provider.OpenAi.{
  OpenAiProvider, new_openai_provider, new_groq_provider, new_mistral_provider,
  new_together_provider,
}
use aigateway.Provider.AzureOpenAi.{AzureOpenAiProvider, new_azure_openai_provider}
use aigateway.Provider.Anthropic.{AnthropicProvider, new_anthropic_provider}
use aigateway.Provider.Gemini.{GeminiProvider, new_gemini_provider}
use aigateway.Provider.Bedrock.{BedrockProvider, new_bedrock_provider}
use aigateway.Provider.Ollama.{OllamaProvider, new_ollama_provider}
use aigateway.Provider.Mock.{MockProvider, new_mock_provider}

pub data Adapter : Type 0 where
  mock : MockProvider → Adapter
  openai : OpenAiProvider → Adapter
  anthropic : AnthropicProvider → Adapter
  ollama : OllamaProvider → Adapter
  gemini : GeminiProvider → Adapter
  azure_openai : AzureOpenAiProvider → Adapter
  bedrock : BedrockProvider → Adapter

-- Name
abbrev pub name_of : Adapter → String
name_of (mock p) = p.name
name_of (openai p) = p.name
name_of (anthropic p) = p.name
name_of (ollama p) = p.name
name_of (gemini p) = p.name
name_of (azure_openai p) = p.name
name_of (bedrock p) = p.name

-- A missing key of a map of texts.
abbrev pub or_empty : Option String → String
or_empty none = ""
or_empty (some v) = v

module _ (getenv : String → String) (parse_duration : String → Option ℕ) where
  -- A tenth of a second, unless the configuration has a latency that parses.
  abbrev pub latency_of : Option String → ℕ
  latency_of none = 10 ^ 8
  latency_of (some v) = elim (parse_duration v) [ none ↦ 10 ^ 8 | some d ↦ d ]

  -- The switch over the types.
  unfoldable pub adapter_of : ProviderConfig → Option Adapter
  adapter_of pc =
      if str_eq pc.type "mock"
      then some (mock (new_mock_provider pc.name (latency_of (lookup "latency" pc.config))))
      else if str_eq pc.type "openai"
      then some (
          openai (
            new_openai_provider getenv pc.name pc.base_url pc.api_key_env pc.models pc.timeout
              pc.max_retries))
      else if str_eq pc.type "anthropic"
      then some (
          anthropic
            (new_anthropic_provider getenv pc.name pc.base_url pc.api_key_env pc.models pc.timeout))
      else if str_eq pc.type "ollama"
      then some (ollama (new_ollama_provider pc.name pc.base_url pc.models))
      else if str_eq pc.type "gemini"
      then some (gemini (new_gemini_provider getenv pc.name pc.api_key_env pc.models pc.timeout))
      else if str_eq pc.type "azure_openai"
      then some (
          azure_openai (
            new_azure_openai_provider getenv pc.name pc.base_url pc.api_key_env pc.api_version
              pc.models pc.timeout))
      else if str_eq pc.type "groq"
      then some (openai (new_groq_provider getenv pc.name pc.api_key_env pc.models pc.timeout))
      else if str_eq pc.type "mistral"
      then some (openai (new_mistral_provider getenv pc.name pc.api_key_env pc.models pc.timeout))
      else if str_eq pc.type "together"
      then some (openai (new_together_provider getenv pc.name pc.api_key_env pc.models pc.timeout))
      else if str_eq pc.type "bedrock"
      then some (
          bedrock (
            new_bedrock_provider getenv pc.name (or_empty (lookup "region" pc.config))
              pc.api_key_env (or_empty (lookup "secret_key_env" pc.config)) pc.models pc.timeout))
      else none

  abbrev pub add : Option Adapter → Dict Adapter → Dict Adapter
  add none ads = ads
  add (some a) ads = insert (name_of a) a ads

  unfoldable pub init_adapters : List ProviderConfig → Dict Adapter → Dict Adapter
  unfolding adapter_of
  init_adapters [] ads = ads
  init_adapters (pc ∷ pcs) ads =
      init_adapters pcs (if pc.enabled then add (adapter_of pc) ads else ads)
