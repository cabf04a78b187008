-- ===== src/Config/Tenants.antt =====
-- internal/config/config.go: the tenant that an API key stands for.
use aigateway.Prelude.{
  ◌≡◌, ◌⊎◌, inl, inr, refl, sym, ap, subst, String, true, false, Option, none, some, List, [], ◌∷◌,
  ◌++◌, arith, All, Bool-cases,
}
use aigateway.Config.Types.{TenantConfig, Config}
use aigateway.Config.{has_key, find_from, find_tenant_by_api_key}

module _ (sha256 : String → String) (api_key : String) where
  -- The tenant has the key, and no later one has it.
  pub record Owner (ts : List TenantConfig) (t : TenantConfig) : Type 0 where
    pub before : List TenantConfig
    pub after : List TenantConfig
    pub split : ts ≡ before ++ t ∷ after
    pub owns : has_key sha256 api_key t.api_keys ≡ true
    pub last : All (λ x. has_key sha256 api_key x.api_keys ≡ false) after

  -- What the loop finds: an owner among the tenants, or, if none has the key, what it had.
  pub Found : List TenantConfig → Option TenantConfig → Option TenantConfig → Type 0
  Found ts old new =
      (All (λ x. has_key sha256 api_key x.api_keys ≡ false) ts × (new ≡ old))
      ⊎ ((t : TenantConfig) × (new ≡ some t) × Owner ts t)

  later :
      (t : TenantConfig) (ts : List TenantConfig) (x : TenantConfig) → Owner ts x → Owner (t ∷ ts) x
  later t ts x o = record {
    before = t ∷ o.before;
    after = o.after;
    split = ap (λ l. t ∷ l) o.split;
    owns = o.owns;
    last = o.last;
  }

  passes :
      (t : TenantConfig) (ts : List TenantConfig) (old new : Option TenantConfig)
      → has_key sha256 api_key t.api_keys ≡ false
      → Found ts old new
      → Found (t ∷ ts) old new
  unfolding Found
  passes t ts old new no_key (inl (none_has, same)) = inl ((no_key, none_has), same)
  passes t ts old new no_key (inr (x, found, o)) = inr (x, found, later t ts x o)

  takes :
      (t : TenantConfig) (ts : List TenantConfig) (old new : Option TenantConfig)
      → has_key sha256 api_key t.api_keys ≡ true
      → Found ts (some t) new
      → Found (t ∷ ts) old new
  unfolding Found
  takes t ts old new key (inl (none_has, same)) =
      inr (t, same, record { before = []; after = ts; split = refl; owns = key; last = none_has })
  takes t ts old new key (inr (x, found, o)) = inr (x, found, later t ts x o)

  find_from-Found :
      (ts : List TenantConfig) (old : Option TenantConfig)
      → Found ts old (find_from sha256 api_key ts old)
  unfolding find_from Found
  find_from-Found [] old = inl (tt, refl)
  find_from-Found (t ∷ ts) old = elim (Bool-cases (has_key sha256 api_key t.api_keys)) [
    | inr no_key ↦
        let goes_on : find_from sha256 api_key (t ∷ ts) old ≡ find_from sha256 api_key ts old =
          ground (arith, no_key) in
        subst (Found (t ∷ ts) old) (sym goes_on) (passes t ts old _ no_key (find_from-Found ts old))
    | inl key ↦
        let goes_on : find_from sha256 api_key (t ∷ ts) old ≡ find_from sha256 api_key ts (some t) =
          ground (arith, key) in
        subst (Found (t ∷ ts) old) (sym goes_on)
          (takes t ts old _ key (find_from-Found ts (some t)))
  ]

  -- An API key stands for the last tenant that has a key with its digest, and for none exactly if
  -- no tenant has one.
  pub find_tenant_by_api_key_exact :
      (F : Type 0) (c : Config F) → Found c.tenants none (find_tenant_by_api_key sha256 api_key c)
  unfolding find_tenant_by_api_key
  find_tenant_by_api_key_exact F c = find_from-Found c.tenants none
