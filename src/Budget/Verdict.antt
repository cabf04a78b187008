-- ===== src/Budget/Verdict.antt =====
-- internal/budget/budget.go: when `Check` allows a request.
use aigateway.Prelude.{
  ◌≡◌, ◌↔◌, refl, sym, ap, ◌∙◌, String, Bool, true, false, none, some, List, [], ◌∷◌, arith, All,
  Bool-cases, Option-cases, inl, inr, not, ◌&&◌,
}
use mathlib.Core.List.{◌++◌}
use aigateway.Prelude.Dict.{Dict, lookup}
use aigateway.Float.{Float64}
use aigateway.Budget.{
  SpendScope, SpendTracker, Manager, Messages, scope_key, percentage_of, check_scopes, check,
}

module _ (fl : Float64) where
  open fl use {F, of_int, le}

  -- A scope applies to the request, has a limit, and is used up.
  unfoldable pub is_exhausted : Dict (SpendTracker F) → String → String → SpendScope F → Bool
  is_exhausted spends tenant_id model s = elim (scope_key tenant_id model s) [
    | none ↦ false
    | some key ↦ elim (lookup key spends) [
      | none ↦ false
      | some t ↦ not (le s.limit (of_int 0)) && le (of_int 100) (percentage_of fl s t)
    ]
  ]

  module _ (msgs : Messages fl) (spends : Dict (SpendTracker F)) (tenant_id model : String) where
    abbrev Continues : SpendScope F → List (SpendScope F) → List String → Type 0
    Continues s ss warnings =
        (warnings' : List String) × (check_scopes fl msgs spends tenant_id model (s ∷ ss) warnings
          ≡ check_scopes fl msgs spends tenant_id model ss warnings')

    -- A scope that is not exhausted lets the loop go on, perhaps with a warning.
    continues :
        (s : SpendScope F) (ss : List (SpendScope F)) (warnings : List String)
        → is_exhausted spends tenant_id model s ≡ false
        → Continues s ss warnings
    unfolding check_scopes is_exhausted
    continues s ss warnings h = elim (Option-cases (scope_key tenant_id model s)) [
      | inl e ↦ (warnings, ground (arith, e))
      | inr (key, e) ↦ elim (Option-cases (lookup key spends)) [
        | inl missing ↦ (warnings, ground (arith, e, missing))
        | inr (t, found) ↦
            let pct = percentage_of fl s t in
            elim (Bool-cases (not (le s.limit (of_int 0)) && le (of_int s.warn_at) pct)) [
              | inl near ↦
                  (warnings ++ msgs.used_text s.scope pct ∷ [], ground (arith, e, found, near))
              | inr far ↦ (warnings, ground (arith, e, found, far))
            ]
      ]
    ]

    blocks :
        (s : SpendScope F) (ss : List (SpendScope F)) (warnings : List String)
        → is_exhausted spends tenant_id model s ≡ true
        → (check_scopes fl msgs spends tenant_id model (s ∷ ss) warnings).allowed ≡ false
    unfolding check_scopes is_exhausted
    blocks s ss warnings h = elim (Option-cases (scope_key tenant_id model s)) [
      | inl e ↦ ground (arith, e)
      | inr (key, e) ↦ ground (arith, e)
    ]

    allowed-check_scopes :
        (ss : List (SpendScope F)) (warnings : List String)
        → ((check_scopes fl msgs spends tenant_id model ss warnings).allowed ≡ true)
          ↔ All (λ s. is_exhausted spends tenant_id model s ≡ false) ss
    unfolding check_scopes
    allowed-check_scopes [] warnings = (λ h. tt, λ h. refl)
    allowed-check_scopes (s ∷ ss) warnings =
        elim (Bool-cases (is_exhausted spends tenant_id model s)) [
          | inl used_up ↦
              let refused = blocks s ss warnings used_up in
              (
                λ h. absurd (ground (arith, refused, h)),
                λ all. absurd (ground (arith, used_up, all.0)),
              )
          | inr fine ↦
              let (warnings', same) = continues s ss warnings fine in
              let rest = allowed-check_scopes ss warnings' in
              (
                λ h. (fine, rest.0 (sym (ap (λ c. c.allowed) same) ∙ h)),
                λ all. ap (λ c. c.allowed) same ∙ rest.1 all.1,
              )
        ]

  -- A request is allowed exactly when no scope that applies to it has a limit and is used up.
  pub check_exact :
      (msgs : Messages fl) (tenant_id model : String) (m : Manager F)
      → ((check fl msgs tenant_id model m).allowed ≡ true)
        ↔ All (λ s. is_exhausted m.spends tenant_id model s ≡ false) m.scopes
  unfolding check
  check_exact msgs tenant_id model m =
      allowed-check_scopes msgs m.spends tenant_id model m.scopes []
