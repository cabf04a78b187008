-- ===== src/Middleware/Tests.antt =====
-- Runs on the middleware, and the theorems at them. The limiters count what they are charged, the
-- digest of a key is the key itself.
use aigateway.Prelude.{
  ◌≡◌, ◌≢◌, ◌⊎◌, inr, refl, subst, str_eq, ℕ, ◌+◌, String, true, false, none, some, [], ◌∷◌, leb,
  arith,
}
use aigateway.Config.Sample.{empty}
use aigateway.Config.{find_tenant_by_api_key, find_from, has_key}
use aigateway.Budget.{CheckResult}
use aigateway.Middleware.{
  extract_api_key, auth, limited, rate_limit, token_rate_limit, budget_check,
}
use aigateway.Middleware.Http.{HttpRequest, Failure, go, fail}
use aigateway.Middleware.Limits.{verdict, Limiter}
use aigateway.Middleware.Cors.{TextFormat, cors}
use aigateway.Middleware.Chain.{Admitted, admit_budget, admit_limits, admit}
use aigateway.Middleware.Admission.{admit-unknown}

abbrev chat : String → HttpRequest
chat key = record {
  path = "/v1/chat/completions";
  http_method = "POST";
  x_api_key = key;
  authorization = "";
  origin = "";
  body = some (1 ∷ 2 ∷ 3 ∷ 4 ∷ 5 ∷ 6 ∷ 7 ∷ 8 ∷ []);
}

abbrev counting : Limiter ℕ
counting = record { allow = λ key cost n. (verdict (leb (n + cost) 10), n + cost) }

abbrev plain : TextFormat
plain = record { join = λ ts sep. sep; itoa = λ n. "" }

abbrev allowing : String → String → CheckResult
allowing tenant_id model = record { allowed = true; warnings = []; block_msg = "" }

abbrev admitted : Admitted
admitted = record { tenant = find_tenant_by_api_key (λ s. s) "k1" empty; headers = [] }

-- Eight bytes are two tokens.
run_admitted :
    admit counting counting plain (λ s. s) empty (some allowing) (chat "k1") 0 0
    ≡ (go admitted, 1, 2)
unfolding admit cors auth extract_api_key find_tenant_by_api_key find_from has_key admit_limits
    rate_limit token_rate_limit limited admit_budget budget_check
run_admitted = refl

no_tenant : find_tenant_by_api_key (λ s. s) (extract_api_key (chat "k9")) empty ≡ none
unfolding find_tenant_by_api_key find_from has_key extract_api_key
no_tenant = refl

elsewhere : (chat "k9").path ≢ "/health"
elsewhere e =
    let bad : true ≡ false = subst (λ q. str_eq q "/health" ≡ false) e refl in ground arith

admit-unknown_example :
    (f : Failure) × (admit counting counting plain (λ s. s) empty (some allowing) (chat "k9") 0 0
      ≡ (fail f, 0, 0))
    × ((f.status ≡ 401)
        ⊎ ((f.status ≡ 204) × ((chat "k9").http_method ≡ "OPTIONS") × (f.error ≡ none)))
admit-unknown_example =
    admit-unknown counting counting (some allowing) plain (λ s. s) empty (chat "k9") 0 0 elsewhere
      (inr no_tenant)
