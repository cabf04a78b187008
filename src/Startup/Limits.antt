-- ===== src/Startup/Limits.antt =====
-- cmd/aegisflow/main.go: the limits of the two limiters, which are those of no single tenant.
use aigateway.Prelude.{
  ℕ, ◌≡◌, ◌≤◌, ◌<◌, sym, subst, ◌⊎◌, inl, inr, refl, List, [], ◌∷◌, All, arith, ltb, Bool-cases,
}
use mathlib.Core.List.{Memᴰ}
use aigateway.Config.Types.{TenantConfig, Config}
use aigateway.RateLimit.{new_memory_limiter}
use aigateway.Startup.{max_rpm, request_limiter}

-- The highest of some tenants' limits on requests, and at least a floor.
pub record IsHighest (floor : ℕ) (ts : List TenantConfig) (m : ℕ) : Type 0 where
  pub above : floor ≤ m
  pub each : All (λ t. t.rate_limit.requests_per_minute ≤ m) ts
  pub attained :
      (m ≡ floor) ⊎ ((t : TenantConfig) × Memᴰ t ts × (m ≡ t.rate_limit.requests_per_minute))

takes :
    (t : TenantConfig) (ts : List TenantConfig) (best m : ℕ)
    → best < t.rate_limit.requests_per_minute
    → IsHighest t.rate_limit.requests_per_minute ts m
    → IsHighest best (t ∷ ts) m
takes t ts best m less h = record {
  above = omega (arith, h.above);
  each = (h.above, h.each);
  attained = elim h.attained [
    | inl same ↦ inr (t, Memᴰ.head refl, same)
    | inr (x, mem, same) ↦ inr (x, Memᴰ.tail mem, same)
  ];
}

keeps :
    (t : TenantConfig) (ts : List TenantConfig) (best m : ℕ)
    → t.rate_limit.requests_per_minute ≤ best
    → IsHighest best ts m
    → IsHighest best (t ∷ ts) m
keeps t ts best m le h = record {
  above = h.above;
  each = (omega (arith, h.above), h.each);
  attained = elim h.attained [
    | inl same ↦ inl same
    | inr (x, mem, same) ↦ inr (x, Memᴰ.tail mem, same)
  ];
}

max_rpm-IsHighest : (ts : List TenantConfig) (best : ℕ) → IsHighest best ts (max_rpm ts best)
unfolding max_rpm
max_rpm-IsHighest [] best = record { above = omega arith; each = tt; attained = inl refl }
max_rpm-IsHighest (t ∷ ts) best =
    let own = t.rate_limit.requests_per_minute in
    elim (Bool-cases (ltb best own)) [
      | inl more ↦
          let goes_on : max_rpm (t ∷ ts) best ≡ max_rpm ts own = ground (arith, more) in
          subst (IsHighest best (t ∷ ts)) (sym goes_on)
            (takes t ts best _ (ground (arith, more)) (max_rpm-IsHighest ts own))
      | inr less ↦
          let goes_on : max_rpm (t ∷ ts) best ≡ max_rpm ts best = ground (arith, less) in
          subst (IsHighest best (t ∷ ts)) (sym goes_on)
            (keeps t ts best _ (ground (arith, less)) (max_rpm-IsHighest ts best))
    ]

-- The one limit of the request limiter, which holds for every tenant, is the highest that any tenant
-- has in the configuration, and at least 60: a tenant with a lower limit is not held to it.
pub request_limiter-IsHighest :
    (F : Type 0) (cfg : Config F) → IsHighest 60 cfg.tenants (request_limiter cfg).limit
unfolding request_limiter new_memory_limiter
request_limiter-IsHighest F cfg = max_rpm-IsHighest cfg.tenants 60
