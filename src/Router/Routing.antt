-- ===== src/Router/Routing.antt =====
-- internal/router/router.go: the route that resolveProviders and matchRoute choose.
use aigateway.Prelude.{
  ◌≡◌, ◌≢◌, ◌⊎◌, inl, inr, refl, sym, subst, ap, String, true, false, Option, none, some, List, [],
  ◌∷◌, ◌++◌, Perm, arith, All, Bool-cases,
}
use aigateway.Provider.{Provider, Registry, available}
use aigateway.Router.{World, Route, resolve_providers}
use aigateway.Router.Selection.{select, select-perm}

pub List-cases : {A : Type 0} (xs : List A) → (xs ≡ []) ⊎ ((x : A) × (ys : List A) × (xs ≡ x ∷ ys))
List-cases [] = inl refl
List-cases (x ∷ ys) = inr (x, ys, refl)

module _ {R : Type 0} (w : World R) (reg : Registry) (model : String) where
  -- A route that cannot serve the model: it does not match, or none of its providers is registered.
  pub Useless : Route → Type 0
  Useless route = (w.matches route.pattern model ≡ false) ⊎ (available reg route.providers ≡ [])

  pub record Chosen (routes : List Route) (ordered : List Provider) : Type 0 where
    pub before : List Route
    pub route : Route
    pub after : List Route
    pub split : routes ≡ before ++ route ∷ after
    pub useless : All Useless before
    pub matching : w.matches route.pattern model ≡ true
    pub some_left : available reg route.providers ≢ []
    pub same : Perm ordered (available reg route.providers)

  pub Resolved : List Route → Option (List Provider) → Type 0
  Resolved routes none = All Useless routes
  Resolved routes (some ordered) = Chosen routes ordered

  later :
      (route : Route) (routes : List Route) (found : Option (List Provider))
      → Useless route
      → Resolved routes found
      → Resolved (route ∷ routes) found
  unfolding Resolved
  later route routes none u h = (u, h)
  later route routes (some ordered) u h = record {
    before = route ∷ h.before;
    route = h.route;
    after = h.after;
    split = ap (λ l. route ∷ l) h.split;
    useless = (u, h.useless);
    matching = h.matching;
    some_left = h.some_left;
    same = h.same;
  }

  -- The providers of a request are those registered of the first route that matches its model and
  -- has any, in an order that its strategy chooses. If the resolution fails, every route either
  -- does not match the model or has no registered provider.
  pub resolve_providers_exact :
      (routes : List Route) → Resolved routes (resolve_providers w reg model routes).0
  unfolding resolve_providers Resolved Useless
  resolve_providers_exact [] = tt
  resolve_providers_exact (route ∷ routes) =
      let found = (resolve_providers w reg model routes).0 in
      let rest = resolve_providers_exact routes in
      elim (Bool-cases (w.matches route.pattern model)) [
        | inr no_match ↦ rw no_match (later route routes found (inl no_match) rest)
        | inl matching ↦ elim (List-cases (available reg route.providers)) [
          | inl nobody ↦ rw (matching, nobody) (later route routes found (inr nobody) rest)
          | inr (p, ps, e) ↦
              rw (matching, e)
                (record {
                  before = [];
                  route = route;
                  after = routes;
                  split = refl;
                  useless = tt;
                  matching = matching;
                  some_left = λ none_left. ground (arith, e, none_left);
                  same =
                      subst (Perm (select route.strategy (p ∷ ps)).0) (sym e)
                        (select-perm route.strategy (p ∷ ps));
                })
        ]
      ]
