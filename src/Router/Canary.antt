-- ===== src/Router/Canary.antt =====
-- internal/router/router.go: how routeWithCanary divides the traffic of a rollout.
use aigateway.Prelude.{
  ℕ, ◌≡◌, ◌≢◌, ◌↔◌, ◌<◌, sym, subst, ap, String, false, none, some, List, [], ◌∷◌, ◌++◌, ◌∙◌,
  Bool-cases, not, keep, arith, All, Option-cases, inl, inr, str_eq, eq_iff,
}
use aigateway.Provider.{Provider, Registry, get, available, IsNamed}
use aigateway.Rollout.Types.{Rollout}
use aigateway.Router.{World, Router, routed, replied, failed, attempt, try_providers}
use aigateway.Router.Attempts.{served_by, Reply-cases}
use aigateway.Router.Routing.{List-cases}
use aigateway.Router.Breaker.{is_open, record_failure}
use aigateway.Router.Dispatch.{baseline_of, route_to_baseline, drawn_canary, route_with_canary}

keep-All :
    (canary : String) (names : List String)
    → All (λ name. name ≢ canary) (keep (λ name. not (str_eq name canary)) names)
keep-All canary [] = tt
keep-All canary (name ∷ names) = elim (Bool-cases (str_eq name canary)) [
  | inl same ↦ rw same (keep-All canary names)
  | inr other ↦ rw other (λ e. ground (arith, other, eq_iff name canary, e), keep-All canary names)
]

available-All :
    (reg : Registry) (canary : String) (names : List String)
    → IsNamed reg
    → All (λ name. name ≢ canary) names
    → All (λ p. p.name ≢ canary) (available reg names)
unfolding available
available-All reg canary [] h all = tt
available-All reg canary (name ∷ names) h all =
    let rest = available-All reg canary names h all.1 in
    elim (Option-cases (get name reg)) [
      | inl missing ↦
          let skips : available reg (name ∷ names) ≡ available reg names =
            ground (arith, missing) in
          subst (All (λ p. p.name ≢ canary)) (sym skips) rest
      | inr (p, found) ↦
          let takes : available reg (name ∷ names) ≡ p ∷ available reg names =
            ground (arith, found) in
          subst (All (λ p. p.name ≢ canary)) (sym takes)
            (λ e. all.0 (sym (h.named name p found) ∙ e), rest)
    ]

-- None of the baseline providers is the canary.
baseline-All :
    (reg : Registry) (canary : String) (names : List String)
    → IsNamed reg
    → All (λ p. p.name ≢ canary) (available reg (keep (λ name. not (str_eq name canary)) names))
baseline-All reg canary names h =
    available-All reg canary (keep (λ name. not (str_eq name canary)) names) h
      (keep-All canary names)

All-middle :
    (P : Provider → Type 0) (before : List Provider) (p : Provider) (rest : List Provider)
    → All P (before ++ p ∷ rest)
    → P p
All-middle P [] p rest h = h.0
All-middle P (x ∷ before) p rest h = All-middle P before p rest h.1

module _ {F R : Type 0} (w : World R) (model : String) (active : Rollout F) where
  drawn_canary_iff :
      (router : Router) (canary : Provider)
      → (drawn_canary w active router ≡ some canary) ↔ (
          (w.draw < active.current_percentage)
          × (get active.canary_provider router.registry ≡ some canary)
          × (is_open (w.checked 0) canary.name router.breaker ≡ false))
  unfolding drawn_canary
  drawn_canary_iff router canary = ground arith

  to_baseline_tries :
      (router : Router) (i : ℕ) (p : Provider) (ps : List Provider)
      → baseline_of router active ≡ p ∷ ps
      → (route_to_baseline w model active i router).0
        ≡ (try_providers w model (p ∷ ps) i router.breaker).0
  unfolding route_to_baseline
  to_baseline_tries router i p ps e = ground (arith, e)

  -- The baseline providers do not answer in the name of the canary.
  to_baseline :
      (router : Router) (i : ℕ) (r : R)
      → IsNamed router.registry
      → baseline_of router active ≢ []
      → (route_to_baseline w model active i router).0 ≢ routed r active.canary_provider ""
  unfolding baseline_of
  to_baseline router i r named some_left result = elim (List-cases (baseline_of router active)) [
    | inl none_left ↦ absurd (some_left none_left)
    | inr (p, ps, e) ↦
        let served =
          served_by w model (p ∷ ps) i router.breaker r active.canary_provider ""
            (sym (to_baseline_tries router i p ps e) ∙ result) in
        let all =
          subst (All (λ q. q.name ≢ active.canary_provider)) (e ∙ served.split)
            (baseline-All router.registry active.canary_provider active.baseline_providers named) in
        All-middle (λ q. q.name ≢ active.canary_provider) served.before served.provider served.rest
          all served.named
  ]

  canary_none :
      (router : Router)
      → drawn_canary w active router ≡ none
      → (route_with_canary w model active router).0 ≡ (route_to_baseline w model active 1 router).0
  unfolding route_with_canary
  canary_none router e = ground (arith, e)

  canary_replied :
      (router : Router) (canary : Provider) (r : R)
      → drawn_canary w active router ≡ some canary
      → w.answered 0 canary.name ≡ replied r
      → (route_with_canary w model active router).0 ≡ routed r canary.name ""
  unfolding route_with_canary attempt
  canary_replied router canary r e answers = ground (arith, e, answers)

  -- The router after a call of the canary that failed.
  abbrev told : Router → Provider → Router
  told router canary = record router {
    breaker = record_failure (w.recorded 0) canary.name router.breaker;
  }

  canary_failed :
      (router : Router) (canary : Provider) (m : String)
      → drawn_canary w active router ≡ some canary
      → w.answered 0 canary.name ≡ failed m
      → (route_with_canary w model active router).0
        ≡ (route_to_baseline w model active 1 (told router canary)).0
  unfolding route_with_canary attempt
  canary_failed router canary m e fails = ground (arith, e, fails)

  -- As long as a baseline provider is registered, and each under its own name, a request is
  -- answered in the name of the canary
  -- exactly when the draw is below the percentage of the rollout, the canary is registered, its
  -- breaker is not open, and its call, the first of the request, succeeds.
  pub canary_exact :
      (router : Router) (r : R)
      → IsNamed router.registry
      → baseline_of router active ≢ []
      → ((route_with_canary w model active router).0 ≡ routed r active.canary_provider "") ↔ (
          (w.draw < active.current_percentage)
          × ((canary : Provider) × (get active.canary_provider router.registry ≡ some canary)
              × (is_open (w.checked 0) canary.name router.breaker ≡ false)
              × (w.answered 0 canary.name ≡ replied r)))
  unfolding baseline_of
  canary_exact router r named some_left = elim (Option-cases (drawn_canary w active router)) [
    | inl e ↦
        let never = to_baseline router 1 r named some_left in
        (
          λ h. absurd (never (sym (canary_none router e) ∙ h)),
          λ (drawn, (canary, found, closed, answers)).
              absurd (ground (arith, e, (drawn_canary_iff router canary).1 (drawn, found, closed))),
        )
    | inr (canary, e) ↦
        let (drawn, found, closed) = (drawn_canary_iff router canary).0 e in
        elim (Reply-cases (w.answered 0 canary.name)) [
          | inl (m, fails) ↦
              let never = to_baseline (told router canary) 1 r named some_left in
              (
                λ h. absurd (never (sym (canary_failed router canary m e fails) ∙ h)),
                λ (_, (other, found', _, answers)).
                    absurd (ground (arith, found, found', fails, answers)),
              )
          | inr (r', answers) ↦ (
            λ h.
                let same : r' ≡ r = ground (arith, canary_replied router canary r' e answers, h) in
                (drawn, (canary, found, closed, answers ∙ ap replied same)),
            λ (_, (other, found', _, answers')). ground (
              arith,
              canary_replied router canary r' e answers,
              found,
              found',
              answers,
              answers',
              named.named active.canary_provider canary found,
            ),
          )
        ]
  ]
