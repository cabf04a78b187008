-- ===== src/Middleware/Admission.antt =====
-- internal/middleware: what a chat request that reaches its handler has passed.
use Prim.Native.String.{◌++◌}
use aigateway.Prelude.{
  ◌≡◌, ◌≢◌, ◌⊎◌, inl, inr, refl, sym, subst, ℕ, String, true, false, Option, none, some, List, [],
  arith, str_eq, eq_iff, Option-cases, Bool-cases,
}
use aigateway.Config.Types.{CorsConfig, TenantConfig, Config}
use aigateway.Config.{find_tenant_by_api_key}
use aigateway.Budget.{CheckResult}
use aigateway.Middleware.{
  extract_api_key, auth, limited, rate_limit, estimated_tokens, token_rate_limit, budget_check,
}
use aigateway.Middleware.Http.{HttpRequest, error_response, Headers, Failure, go, fail, Step-cases}
use aigateway.Middleware.Limits.{LimitReply, verdict, unavailable, Limiter}
use aigateway.Middleware.Cors.{TextFormat, cors}
use aigateway.Middleware.Chain.{Admitted, admit_budget, admit_limits, admit}

limited-go :
    (v : LimitReply) (message : String) (h : Headers)
    → limited v message h ≡ go tt
    → v ≡ verdict true
unfolding limited
limited-go (verdict true) message h e = refl
limited-go (verdict false) message h e = grind arith
limited-go unavailable message h e = grind arith

auth-known :
    {F : Type 0} (sha256 : String → String) (cfg : Config F) (r : HttpRequest) (h : Headers)
    (found : Option TenantConfig)
    → str_eq r.path "/health" ≡ false
    → auth sha256 cfg r h ≡ go found
    → (t : TenantConfig) × (found ≡ some t)
      × (find_tenant_by_api_key sha256 (extract_api_key r) cfg ≡ some t)
      × (str_eq (extract_api_key r) "" ≡ false)
unfolding auth
auth-known sha256 cfg r h none p e = ground arith
auth-known sha256 cfg r h (some t) p e = (t, refl, ground arith, ground arith)

auth-unknown :
    {F : Type 0} (sha256 : String → String) (cfg : Config F) (r : HttpRequest) (h : Headers)
    → r.path ≢ "/health"
    → (extract_api_key r ≡ "") ⊎ (find_tenant_by_api_key sha256 (extract_api_key r) cfg ≡ none)
    → (f : Failure) × (auth sha256 cfg r h ≡ fail f) × (f.status ≡ 401)
unfolding auth error_response
auth-unknown sha256 cfg r h p unknown = elim (Bool-cases (str_eq (extract_api_key r) "")) [
  | inl missing ↦ (
    error_response 401 "authentication_error"
        "missing API key — use X-API-Key header or Authorization: Bearer <key>" h,
    ground (arith, missing, eq_iff r.path "/health"),
    refl,
  )
  | inr given ↦ (
    error_response 401 "authentication_error" "invalid API key" h,
    ground (arith, given, unknown, eq_iff r.path "/health", eq_iff (extract_api_key r) ""),
    refl,
  )
]

cors-preflight :
    (text : TextFormat) (cfg : CorsConfig) (r : HttpRequest) (h : Headers) (f : Failure)
    → cors text cfg r h ≡ fail f
    → (f.status ≡ 204) × (r.http_method ≡ "OPTIONS") × (f.error ≡ none)
unfolding cors
cors-preflight text cfg r h f e = ground (arith, eq_iff r.http_method "OPTIONS")

rate_limit-granted :
    {S : Type 0} (L : Limiter S) (t : TenantConfig) (r : HttpRequest) (h : Headers) (s s' : S)
    → str_eq r.path "/health" ≡ false
    → rate_limit L (some t) r h s ≡ (go tt, s')
    → L.allow t.id 1 s ≡ (verdict true, s')
unfolding rate_limit
rate_limit-granted L t r h s s' p e =
    let (reply, after) = L.allow t.id 1 s in
    ground (arith, limited-go reply "rate limit exceeded — retry after 60 seconds" h)

token_rate_limit-granted :
    {S : Type 0} (L : Limiter S) (t : TenantConfig) (r : HttpRequest) (h : Headers) (s s' : S)
    → str_eq r.path "/v1/chat/completions" ≡ true
    → token_rate_limit L (some t) r h s ≡ (go tt, s')
    → (bytes : List ℕ) × (r.body ≡ some bytes)
      × (L.allow ("tok:" ++ t.id) (estimated_tokens bytes) s ≡ (verdict true, s'))
unfolding token_rate_limit
token_rate_limit-granted L t r h s s' p e = elim (Option-cases r.body) [
  | inl none_read ↦ ground (arith, none_read)
  | inr (bytes, read) ↦
      let (reply, after) = L.allow ("tok:" ++ t.id) (estimated_tokens bytes) s in
      (
        bytes,
        read,
        ground
            (arith, read, limited-go reply "token rate limit exceeded — retry after 60 seconds" h),
      )
]

budget_check-allowed :
    (check : String → String → CheckResult) (t : TenantConfig) (r : HttpRequest) (h h' : Headers)
    → str_eq r.path "/v1/chat/completions" ≡ true
    → budget_check (some check) (some t) r h ≡ go h'
    → (check t.id "*").allowed ≡ true
unfolding budget_check
budget_check-allowed check t r h h' p e = ground arith

module _ {S1 S2 : Type 0} (requests : Limiter S1) (tokens : Limiter S2)
    (check : Option (String → String → CheckResult)) where
  -- The limiters and the budget have agreed to a tenant's request, and the limiters have charged it.
  pub record IsGranted (t : TenantConfig) (r : HttpRequest) (s1 s1' : S1) (s2 s2' : S2)
      : Type 0 where
    pub rate : requests.allow t.id 1 s1 ≡ (verdict true, s1')
    pub bytes : List ℕ
    pub readable : r.body ≡ some bytes
    pub budgeted :
        (f : String → String → CheckResult) → check ≡ some f → (f t.id "*").allowed ≡ true
    pub charged : tokens.allow ("tok:" ++ t.id) (estimated_tokens bytes) s2 ≡ (verdict true, s2')

  admit_budget-allowed :
      (t : TenantConfig) (r : HttpRequest) (h : Headers) (a : Admitted)
      → str_eq r.path "/v1/chat/completions" ≡ true
      → admit_budget check (some t) r h ≡ go a
      → (a.tenant ≡ some t)
        × ((f : String → String → CheckResult) → check ≡ some f → (f t.id "*").allowed ≡ true)
  unfolding admit_budget
  admit_budget-allowed t r h a p e = elim (Step-cases (budget_check check (some t) r h)) [
    | inl (f, failed) ↦ ground (arith, failed)
    | inr (h', went) ↦ (
      ground (arith, went),
      λ f given.
          budget_check-allowed f t r h h' p
            (subst (λ c. budget_check c (some t) r h ≡ go h') given went),
    )
  ]

  admit_limits-IsGranted :
      (t : TenantConfig) (r : HttpRequest) (h : Headers) (a : Admitted) (s1 s1' : S1) (s2 s2' : S2)
      → str_eq r.path "/health" ≡ false
      → str_eq r.path "/v1/chat/completions" ≡ true
      → admit_limits requests tokens check (some t) r h s1 s2 ≡ (go a, s1', s2')
      → (a.tenant ≡ some t) × IsGranted t r s1 s1' s2 s2'
  unfolding admit_limits
  admit_limits-IsGranted t r h a s1 s1' s2 s2' n p e =
      elim (Step-cases (rate_limit requests (some t) r h s1).0) [
        | inl (f, failed) ↦ ground (arith, failed)
        | inr (u, went) ↦ elim (Step-cases (token_rate_limit tokens (some t) r h s2).0) [
          | inl (f, failed) ↦ ground (arith, went, failed)
          | inr (u', went') ↦
              let (tenant, budgeted) =
                admit_budget-allowed t r h a p (ground (arith, went, went')) in
              let (bytes, readable, charged) =
                token_rate_limit-granted tokens t r h s2 s2' p (ground (arith, went, went')) in
              (
                tenant,
                record {
                  rate = rate_limit-granted requests t r h s1 s1' n (ground (arith, went, went'));
                  bytes = bytes;
                  readable = readable;
                  budgeted = budgeted;
                  charged = charged;
                },
              )
        ]
      ]

  module _ {F : Type 0} (text : TextFormat) (sha256 : String → String) (cfg : Config F)
      (r : HttpRequest) where
    -- A chat request that reaches its handler has an API key, which stands for the tenant it comes
    -- with; both limiters have granted and charged it, the second one for the size of its body, and
    -- the budget, if there is one, allows it.
    pub admit-IsGranted :
        (a : Admitted) (s1 s1' : S1) (s2 s2' : S2)
        → r.path ≡ "/v1/chat/completions"
        → admit requests tokens text sha256 cfg check r s1 s2 ≡ (go a, s1', s2')
        → (t : TenantConfig) × (a.tenant ≡ some t)
          × (extract_api_key r ≢ "")
          × (find_tenant_by_api_key sha256 (extract_api_key r) cfg ≡ some t)
          × IsGranted t r s1 s1' s2 s2'
    unfolding admit
    admit-IsGranted a s1 s1' s2 s2' p e = elim (Step-cases (cors text cfg.server.cors r [])) [
      | inl (f, failed) ↦ ground (arith, failed)
      | inr (h, went) ↦ elim (Step-cases (auth sha256 cfg r h)) [
        | inl (f, failed) ↦ ground (arith, went, failed)
        | inr (found, went') ↦
            let n : str_eq r.path "/health" ≡ false =
              subst (λ q. str_eq q "/health" ≡ false) (sym p) refl in
            let (t, is_some, known, keyed) = auth-known sha256 cfg r h found n went' in
            let (tenant, granted) =
              admit_limits-IsGranted t r h a s1 s1' s2 s2' n
                (ground (arith, p, eq_iff r.path "/v1/chat/completions"))
                (ground (arith, went, went', is_some)) in
            (t, tenant, ground (arith, eq_iff (extract_api_key r) ""), known, granted)
      ]
    ]

    -- A request that is not for /health and has no API key, or one of no tenant, is answered with 401,
    -- or with 204 as a preflight, and no limiter counts it.
    pub admit-unknown :
        (s1 : S1) (s2 : S2)
        → r.path ≢ "/health"
        → (extract_api_key r ≡ "") ⊎ (find_tenant_by_api_key sha256 (extract_api_key r) cfg ≡ none)
        → (f : Failure) × (admit requests tokens text sha256 cfg check r s1 s2 ≡ (fail f, s1, s2))
          × ((f.status ≡ 401) ⊎ ((f.status ≡ 204) × (r.http_method ≡ "OPTIONS") × (f.error ≡ none)))
    unfolding admit
    admit-unknown s1 s2 p unknown = elim (Step-cases (cors text cfg.server.cors r [])) [
      | inl (f, failed) ↦
          (f, ground (arith, failed), inr (cors-preflight text cfg.server.cors r [] f failed))
      | inr (h, went) ↦
          let (f, failed, code) = auth-unknown sha256 cfg r h p unknown in
          (f, ground (arith, went, failed), inl code)
    ]
