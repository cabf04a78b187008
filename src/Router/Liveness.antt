-- ===== src/Router/Liveness.antt =====
-- internal/router/router.go: a provider that works answers for its list (tryProviders) and for its
-- region (routeWithRegions).
use aigateway.Prelude.{
  ℕ, ◌+◌, ◌<◌, ◌≡◌, ◌≢◌, ◌⊎◌, refl, sym, subst, ap, ◌∙◌, All, String, false, Option, none, some,
  List, [], ◌∷◌, Mem, arith, eq_iff, Bool-cases, inl, inr,
}
use mathlib.Core.List.{Memᴰ}
use mathlib.Core.List.Perm
use mathlib.Core.Logic.{∥∥₁_elim}
use aigateway.Prelude.Dict.{lookup, lookup-insert}
use aigateway.Provider.{Provider, Registry, available}
use aigateway.Router.{
  World, Region, routed, Outcome, served, gave_up, failed, replied, walk, try_providers, answer,
  route_with_regions,
}
use aigateway.Router.Attempts.{Reply-cases, walk-skips, walk-fails, walk-serves}
use aigateway.Router.Routing.{List-cases}
use aigateway.Router.Breaker.{CircuitBreaker, is_open, record_failure, count_of}
use aigateway.Router.Selection.{select, select-perm}

pub Outcome-cases :
    {R : Type 0} (o : Outcome R)
    → ((r : R) × (n : String) × (o ≡ served r n)) ⊎ ((last : Option String) × (o ≡ gave_up last))
Outcome-cases (served r n) = inl (r, n, refl)
Outcome-cases (gave_up last) = inr (last, refl)

All-Memᴰ :
    (name : String) (ps : List Provider) (p : Provider)
    → All (λ q. q.name ≢ name) ps
    → Memᴰ p ps
    → p.name ≢ name
All-Memᴰ name [] p all m = elim m [ ]
All-Memᴰ name (x ∷ ps) p all (Memᴰ.head e) = λ same. all.0 (ap (λ q. q.name) (sym e) ∙ same)
All-Memᴰ name (x ∷ ps) p all (Memᴰ.tail m) = All-Memᴰ name ps p all.1 m

All-Mem :
    (name : String) (ps : List Provider) (p : Provider)
    → All (λ q. q.name ≢ name) ps
    → Mem p ps
    → p.name ≢ name
All-Mem name ps p all m same = ∥∥₁_elim m (λ a b. elim a [ ]) (λ d. All-Memᴰ name ps p all d same)

module _ {R : Type 0} (w : World R) (name : String) where
  -- The breaker does not skip the provider, whatever the time.
  unfoldable pub IsClosed : CircuitBreaker → Type 0
  IsClosed cb = (now : ℕ) → is_open now name cb ≡ false

  -- The provider answers whenever it is called.
  unfoldable pub Works : Type 0
  Works = (i : ℕ) → (r : R) × (w.answered i name ≡ replied r)

  -- So it is while it has counted fewer failures since the last success than its threshold.
  pub fewer-IsClosed :
      (cb : CircuitBreaker) → count_of (lookup name cb.failures) < cb.threshold → IsClosed cb
  unfolding IsClosed is_open count_of
  fewer-IsClosed cb fewer now = ground arith

  failure-IsClosed :
      (now i : ℕ) (other m : String) (cb : CircuitBreaker)
      → Works
      → w.answered i other ≡ failed m
      → IsClosed cb
      → IsClosed (record_failure now other cb)
  unfolding IsClosed Works record_failure is_open
  failure-IsClosed now i other m cb works fails untripped t =
      let n = count_of (lookup other cb.failures) + 1 in
      ground (
        arith,
        works i,
        fails,
        untripped t,
        eq_iff other name,
        lookup-insert other name n cb.failures,
        lookup-insert other name now cb.last_failure,
      )

  -- A walk that gives up has met no provider of the name.
  Good : List Provider → Outcome R × ℕ × CircuitBreaker → Type 0
  Good ps (served r n, _, _) = Unit
  Good ps (gave_up last, _, cb) = IsClosed cb × All (λ q. q.name ≢ name) ps

  Good-more :
      (p : Provider) (ps : List Provider) (res : Outcome R × ℕ × CircuitBreaker)
      → p.name ≢ name
      → Good ps res
      → Good (p ∷ ps) res
  unfolding Good
  Good-more p ps (served r n, _, _) other h = tt
  Good-more p ps (gave_up last, _, _) other h = (h.0, (other, h.1))

  walk-Good :
      (ps : List Provider) (last : Option String) (i : ℕ) (cb : CircuitBreaker)
      → Works
      → IsClosed cb
      → Good ps (walk w ps last i cb)
  unfolding Good walk IsClosed Works
  walk-Good [] last i cb works untripped = (untripped, tt)
  walk-Good (p ∷ ps) last i cb works untripped =
      elim (Bool-cases (is_open (w.checked i) p.name cb)) [
        | inl tripped ↦ subst (Good (p ∷ ps)) (sym (walk-skips w p ps last i cb tripped)) (
            Good-more p ps (walk w ps last (i + 1) cb)
              (λ e. ground (arith, tripped, e, untripped (w.checked i)))
              (walk-Good ps last (i + 1) cb works untripped))
        | inr closed ↦ elim (Reply-cases (w.answered i p.name)) [
          | inl (e, fails) ↦
              let cb1 = record_failure (w.recorded i) p.name cb in
              subst (Good (p ∷ ps)) (sym (walk-fails w p ps last i cb e closed fails)) (
                Good-more p ps (walk w ps (some e) (i + 1) cb1)
                  (λ same. ground (arith, fails, same, works i))
                  (walk-Good ps (some e) (i + 1) cb1 works
                    (failure-IsClosed (w.recorded i) i p.name e cb works fails untripped)))
          | inr (r, answers) ↦
              subst (Good (p ∷ ps)) (sym (walk-serves w p ps last i cb r closed answers)) tt
        ]
      ]

  -- A walk that has given up met no provider of the name, and has left the breaker closed for it.
  stuck :
      (ps : List Provider) (last : Option String) (i : ℕ) (cb : CircuitBreaker)
      (last' : Option String)
      → Works
      → IsClosed cb
      → (walk w ps last i cb).0 ≡ gave_up last'
      → IsClosed (walk w ps last i cb).2 × All (λ q. q.name ≢ name) ps
  unfolding Good
  stuck ps last i cb last' works untripped e =
      subst (λ o. Good ps (o, (walk w ps last i cb).1, (walk w ps last i cb).2)) e
        (walk-Good ps last i cb works untripped)

  -- Who stands in the list does not give up.
  serves :
      (p : Provider) (ps : List Provider) (last : Option String) (i : ℕ) (cb : CircuitBreaker)
      → p.name ≡ name
      → Mem p ps
      → Works
      → IsClosed cb
      → (r : R) × (n : String) × ((walk w ps last i cb).0 ≡ served r n)
  unfolding Good
  serves p ps last i cb named m works untripped = elim (Outcome-cases (walk w ps last i cb).0) [
    | inl found ↦ found
    | inr (last', e) ↦
        absurd (All-Mem name ps p (stuck ps last i cb last' works untripped e).1 m named)
  ]

  -- A provider of the list that always answers, and that the breaker skips at no time, keeps the
  -- request from being refused.
  pub try_providers_serves :
      (p : Provider) (model : String) (ps : List Provider) (i : ℕ) (cb : CircuitBreaker)
      → p.name ≡ name
      → Mem p ps
      → Works
      → IsClosed cb
      → (r : R) × (n : String) × ((try_providers w model ps i cb).0 ≡ routed r n "")
  unfolding try_providers
  try_providers_serves p model ps i cb named m works untripped =
      let (r, n, e) = serves p ps none i cb named m works untripped in (r, n, ap (answer w model) e)

  -- The three ways of a region.
  region_empty :
      (model : String) (reg : Registry) (x : Region) (regions : List Region) (i : ℕ)
      (cb : CircuitBreaker)
      → available reg x.providers ≡ []
      → (route_with_regions w reg model (x ∷ regions) i cb).0
        ≡ (route_with_regions w reg model regions i cb).0
  unfolding route_with_regions
  region_empty model reg x regions i cb e = ground (arith, e)

  region_serves :
      (model : String) (reg : Registry) (x : Region) (regions : List Region) (i : ℕ)
      (cb : CircuitBreaker)
      → (q : Provider) (qs : List Provider) (r : R) (n : String)
      → available reg x.providers ≡ q ∷ qs
      → (walk w (select x.strategy (q ∷ qs)).0 none i cb).0 ≡ served r n
      → (route_with_regions w reg model (x ∷ regions) i cb).0 ≡ routed r n x.name
  unfolding route_with_regions
  region_serves model reg x regions i cb q qs r n e found = ground (arith, e, found)

  region_gives_up :
      (model : String) (reg : Registry) (x : Region) (regions : List Region) (i : ℕ)
      (cb : CircuitBreaker)
      → (q : Provider) (qs : List Provider) (last : Option String)
      → available reg x.providers ≡ q ∷ qs
      → (walk w (select x.strategy (q ∷ qs)).0 none i cb).0 ≡ gave_up last
      → let (_, i', cb') = walk w (select x.strategy (q ∷ qs)).0 none i cb in
        (route_with_regions w reg model (x ∷ regions) i cb).0
        ≡ (route_with_regions w reg model regions i' cb').0
  unfolding route_with_regions
  region_gives_up model reg x regions i cb q qs last e lost = ground (arith, e, lost)

  -- A region without the provider is not the one that lists it.
  further :
      (p : Provider) (reg : Registry) (region x : Region) (regions : List Region)
      → Memᴰ region (x ∷ regions)
      → Mem p (available reg region.providers)
      → ¬ Mem p (available reg x.providers)
      → Memᴰ region regions
  further p reg region x regions (Memᴰ.head e) there not_here =
      absurd (not_here (subst (λ y. Mem p (available reg y.providers)) e there))
  further p reg region x regions (Memᴰ.tail m) there not_here = m

  -- A region that lists, as one that is registered, a provider that always answers, and that the breaker
  -- as it is before the request skips at no time, keeps the request from being refused.
  pub route_with_regions_serves :
      (p : Provider) (model : String) (reg : Registry) (region : Region) (regions : List Region)
      → (i : ℕ) (cb : CircuitBreaker) → p.name ≡ name
      → Memᴰ region regions
      → Mem p (available reg region.providers)
      → Works
      → IsClosed cb
      → (r : R) × (n : String) × (at : String) × ((route_with_regions w reg model regions i cb).0
          ≡ routed r n at)
  route_with_regions_serves p model reg region [] i cb named m there works untripped = elim m [ ]
  route_with_regions_serves p model reg region (x ∷ regions) i cb named m there works untripped =
      elim (List-cases (available reg x.providers)) [
        | inl e ↦
            let m' =
              further p reg region x regions m there
                (λ here. ∥∥₁_elim (subst (Mem p) e here) (λ a b. elim a [ ]) (λ d. elim d [ ])) in
            let (r, n, at, eq) =
              route_with_regions_serves p model reg region regions i cb named m' there works
                untripped in
            (r, n, at, region_empty model reg x regions i cb e ∙ eq)
        | inr (q, qs, e) ↦
            let ordered = (select x.strategy (q ∷ qs)).0 in
            elim (Outcome-cases (walk w ordered none i cb).0) [
              | inl (r, n, found) ↦
                  (r, n, x.name, region_serves model reg x regions i cb q qs r n e found)
              | inr (last, lost) ↦
                  let (_, i', cb') = walk w ordered none i cb in
                  let (untripped', all) = stuck ordered none i cb last works untripped lost in
                  let m' = further p reg region x regions m there (λ here.
                    All-Mem name ordered p all
                      ((Perm.mem_iff (select-perm x.strategy (q ∷ qs))).1 (subst (Mem p) e here))
                      named) in
                  let (r, n, at, eq) =
                    route_with_regions_serves p model reg region regions i' cb' named m' there works
                      untripped' in
                  (r, n, at, region_gives_up model reg x regions i cb q qs last e lost ∙ eq)
            ]
      ]
