-- ===== src/Startup/Kinds.antt =====
-- cmd/aegisflow/main.go: which kind of adapter `initProviders` makes of an entry of each type, said
-- without its switch.
use mathlib.Core.List.{Memᴰ}
use aigateway.Prelude.{
  ◌≡◌, ◌≢◌, ◌⊎◌, refl, sym, subst, inl, inr, ℕ, String, Bool, true, false, Option, none, some, List,
  [], ◌∷◌, All, str_eq, eq_iff, arith, if◌then◌else◌,
}
use aigateway.Prelude.Dict.{lookup}
use aigateway.Config.Types.{ProviderConfig}
use aigateway.Provider.OpenAi.{
  new_openai_provider, new_groq_provider, new_mistral_provider, new_together_provider,
}
use aigateway.Provider.AzureOpenAi.{new_azure_openai_provider}
use aigateway.Provider.Anthropic.{new_anthropic_provider}
use aigateway.Provider.Gemini.{new_gemini_provider}
use aigateway.Provider.Bedrock.{new_bedrock_provider}
use aigateway.Provider.Ollama.{new_ollama_provider}
use aigateway.Startup.Adapters.{
  Adapter, mock, openai, anthropic, ollama, gemini, azure_openai, bedrock, name_of, or_empty,
  latency_of, adapter_of,
}

-- The types of an entry.
abbrev pub known_types : List String
known_types =
    "mock" ∷ "openai" ∷ "anthropic" ∷ "ollama" ∷ "gemini" ∷ "azure_openai" ∷ "groq" ∷ "mistral"
    ∷ "together" ∷ "bedrock" ∷ []

if_either :
    {A : Type 0} (P : A → Type 0) (b : Bool) (x y : A)
    → (b ≡ true → P x)
    → (b ≡ false → P y)
    → P (if b then x else y)
if_either P true x y held failed = held refl
if_either P false x y held failed = failed refl

module _ (getenv : String → String) (parse_duration : String → Option ℕ) where
  -- An adapter fits an entry: it is of the kind for the entry's type and has the entry's name; it has the
  -- keys that the environment holds under the names of the entry, the entry's URL or, for groq, mistral,
  -- together and gemini, the vendor's, and the entry's models but for these four; a mock has the latency.
  -- Ollama takes no key, and Bedrock no URL.
  abbrev pub Fits : ProviderConfig → Adapter → Type 0
  Fits pc (mock p) =
      (pc.type ≡ "mock")
      × (p.name ≡ pc.name)
      × (p.latency ≡ latency_of getenv parse_duration (lookup "latency" pc.config))
  Fits pc (openai p) =
      (((pc.type ≡ "openai") × (p.base_url ≡ pc.base_url) × (p.models ≡ pc.models))
        ⊎ (((pc.type ≡ "groq") × (p.base_url ≡ "https://api.groq.com/openai/v1"))
            ⊎ (((pc.type ≡ "mistral") × (p.base_url ≡ "https://api.mistral.ai/v1"))
                ⊎ ((pc.type ≡ "together") × (p.base_url ≡ "https://api.together.xyz/v1")))))
      × (p.name ≡ pc.name)
      × (p.api_key ≡ getenv pc.api_key_env)
  Fits pc (anthropic p) =
      (pc.type ≡ "anthropic")
      × (p.name ≡ pc.name)
      × (p.base_url ≡ pc.base_url)
      × (p.api_key ≡ getenv pc.api_key_env)
      × (p.models ≡ pc.models)
  Fits pc (ollama p) =
      (pc.type ≡ "ollama")
      × (p.name ≡ pc.name)
      × (p.base_url ≡ pc.base_url)
      × (p.models ≡ pc.models)
  Fits pc (gemini p) =
      (pc.type ≡ "gemini")
      × (p.name ≡ pc.name)
      × (p.base_url ≡ "https://generativelanguage.googleapis.com/v1beta")
      × (p.api_key ≡ getenv pc.api_key_env)
  Fits pc (azure_openai p) =
      (pc.type ≡ "azure_openai")
      × (p.name ≡ pc.name)
      × (p.endpoint ≡ pc.base_url)
      × (p.api_key ≡ getenv pc.api_key_env)
      × (p.models ≡ pc.models)
  Fits pc (bedrock p) =
      (pc.type ≡ "bedrock")
      × (p.name ≡ pc.name)
      × (p.access_key ≡ getenv pc.api_key_env)
      × (p.secret_key ≡ getenv (or_empty (lookup "secret_key_env" pc.config)))
      × (p.models ≡ pc.models)

  pub name_of-Fits : (pc : ProviderConfig) (a : Adapter) → Fits pc a → name_of a ≡ pc.name
  name_of-Fits pc (mock p) fits = fits.1
  name_of-Fits pc (openai p) fits = fits.1
  name_of-Fits pc (anthropic p) fits = fits.1
  name_of-Fits pc (ollama p) fits = fits.1
  name_of-Fits pc (gemini p) fits = fits.1
  name_of-Fits pc (azure_openai p) fits = fits.1
  name_of-Fits pc (bedrock p) fits = fits.1

  -- An entry that an adapter fits is of a known type.
  is_known : (t u : String) → Memᴰ u known_types → t ≡ u → Memᴰ t known_types
  is_known t u m same = subst (λ x. Memᴰ x known_types) (sym same) m

  pub Fits-known : (pc : ProviderConfig) (a : Adapter) → Fits pc a → Memᴰ pc.type known_types
  Fits-known pc (mock p) fits = is_known _ _ (Memᴰ.head refl) fits.0
  Fits-known pc (openai p) (inl fits, _, _) = is_known _ _ (Memᴰ.tail (Memᴰ.head refl)) fits.0
  Fits-known pc (openai p) (inr (inl fits), _, _) =
      is_known _ _
        (Memᴰ.tail (Memᴰ.tail (Memᴰ.tail (Memᴰ.tail (Memᴰ.tail (Memᴰ.tail (Memᴰ.head refl)))))))
        fits.0
  Fits-known pc (openai p) (inr (inr (inl fits)), _, _) =
      is_known _ _
        (Memᴰ.tail
          (Memᴰ.tail (Memᴰ.tail (Memᴰ.tail (Memᴰ.tail (Memᴰ.tail (Memᴰ.tail (Memᴰ.head refl))))))))
        fits.0
  Fits-known pc (openai p) (inr (inr (inr fits)), _, _) =
      is_known _ _
        (Memᴰ.tail (
          Memᴰ.tail (
            Memᴰ.tail
              (Memᴰ.tail (Memᴰ.tail (Memᴰ.tail (Memᴰ.tail (Memᴰ.tail (Memᴰ.head refl)))))))))
        fits.0
  Fits-known pc (anthropic p) fits = is_known _ _ (Memᴰ.tail (Memᴰ.tail (Memᴰ.head refl))) fits.0
  Fits-known pc (ollama p) fits =
      is_known _ _ (Memᴰ.tail (Memᴰ.tail (Memᴰ.tail (Memᴰ.head refl)))) fits.0
  Fits-known pc (gemini p) fits =
      is_known _ _ (Memᴰ.tail (Memᴰ.tail (Memᴰ.tail (Memᴰ.tail (Memᴰ.head refl))))) fits.0
  Fits-known pc (azure_openai p) fits =
      is_known _ _ (Memᴰ.tail (Memᴰ.tail (Memᴰ.tail (Memᴰ.tail (Memᴰ.tail (Memᴰ.head refl))))))
        fits.0
  Fits-known pc (bedrock p) fits =
      is_known _ _
        (Memᴰ.tail (
          Memᴰ.tail (
            Memᴰ.tail (
              Memᴰ.tail
                (Memᴰ.tail (Memᴰ.tail (Memᴰ.tail (Memᴰ.tail (Memᴰ.tail (Memᴰ.head refl))))))))))
        fits.0

  -- What the switch makes of an entry.
  abbrev pub Made : ProviderConfig → Option Adapter → Type 0
  Made pc none = All (λ t. pc.type ≢ t) known_types
  Made pc (some a) = Fits pc a

  same_type : (pc : ProviderConfig) (t : String) → str_eq pc.type t ≡ true → pc.type ≡ t
  same_type pc t e = ground (arith, e, eq_iff pc.type t)

  other_type : (pc : ProviderConfig) (t : String) → str_eq pc.type t ≡ false → pc.type ≢ t
  other_type pc t e same = ground (arith, e, same, eq_iff pc.type t)

  pub adapter_of-Made : (pc : ProviderConfig) → Made pc (adapter_of getenv parse_duration pc)
  unfolding adapter_of new_openai_provider new_anthropic_provider new_ollama_provider
      new_gemini_provider new_azure_openai_provider new_groq_provider new_mistral_provider
      new_together_provider new_bedrock_provider
  adapter_of-Made pc =
      let same = same_type pc in
      let other = other_type pc in
      if_either (Made pc) (str_eq pc.type "mock") _ _ (λ e. (same _ e, refl, refl))
        (λ e0.
          if_either (Made pc) (str_eq pc.type "openai") _ _
            (λ e. (inl (same _ e, refl, refl), refl, refl))
            (λ e1.
              if_either (Made pc) (str_eq pc.type "anthropic") _ _
                (λ e. (same _ e, refl, refl, refl, refl))
                (λ e2.
                  if_either (Made pc) (str_eq pc.type "ollama") _ _
                    (λ e. (same _ e, refl, refl, refl))
                    (λ e3.
                      if_either (Made pc) (str_eq pc.type "gemini") _ _
                        (λ e. (same _ e, refl, refl, refl))
                        (λ e4.
                          if_either (Made pc) (str_eq pc.type "azure_openai") _ _
                            (λ e. (same _ e, refl, refl, refl, refl))
                            (λ e5.
                              if_either (Made pc) (str_eq pc.type "groq") _ _
                                (λ e. (inr (inl (same _ e, refl)), refl, refl))
                                (λ e6.
                                  if_either (Made pc) (str_eq pc.type "mistral") _ _
                                    (λ e. (inr (inr (inl (same _ e, refl))), refl, refl))
                                    (λ e7.
                                      if_either (Made pc) (str_eq pc.type "together") _ _
                                        (λ e. (inr (inr (inr (same _ e, refl))), refl, refl))
                                        (λ e8.
                                          if_either (Made pc) (str_eq pc.type "bedrock") _ _
                                            (λ e. (same _ e, refl, refl, refl, refl))
                                            (λ e9. (
                                              other _ e0,
                                              (
                                                other _ e1,
                                                (
                                                  other _ e2,
                                                  (
                                                    other _ e3,
                                                    (
                                                      other _ e4,
                                                      (
                                                        other _ e5,
                                                        (
                                                          other _ e6,
                                                          (
                                                            other _ e7,
                                                            (other _ e8, (other _ e9, tt)),
                                                          ),
                                                        ),
                                                      ),
                                                    ),
                                                  ),
                                                ),
                                              ),
                                            )))))))))))
