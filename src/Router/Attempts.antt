-- ===== src/Router/Attempts.antt =====
-- internal/router/router.go: what a walk along providers means (tryProviders, and the inner loop
-- of routeWithRegions).
use aigateway.Prelude.{
  ℕ, ◌+◌, ◌≡◌, refl, sym, String, true, false, Option, none, some, List, [], ◌∷◌, ◌++◌, ap, subst,
  arith, length, Bool-cases, ◌⊎◌, inl, inr,
}
use aigateway.Provider.{Provider}
use aigateway.Router.{
  World, Reply, failed, replied, Result, routed, refused, all_failed, none_available,
  none_in_regions, none_in_regions_stream, no_route, Outcome, served, gave_up, attempt, walk,
  try_providers, answer,
}
use aigateway.Router.Breaker.{CircuitBreaker, is_open, record_failure, record_success}

-- The specification: the providers `ps` are passed without an answer, each one skipped since its
-- breaker is open, or tried in vain, which the breaker is told. `last` is the last error before
-- and after.
pub data Passed {R : Type 0} (w : World R)
    : List Provider
      → ℕ
      → Option String
      → CircuitBreaker
      → Option String
      → CircuitBreaker
      → Type 0 where
  nobody : {i : ℕ} → {last : Option String} → {cb : CircuitBreaker} → Passed w [] i last cb last cb
  skipped :
      {p : Provider}
      → {ps : List Provider} → {i : ℕ} → {last last' : Option String} → {cb cb' : CircuitBreaker}
      → is_open (w.checked i) p.name cb ≡ true
      → Passed w ps (i + 1) last cb last' cb'
      → Passed w (p ∷ ps) i last cb last' cb'
  in_vain :
      {p : Provider}
      → {ps : List Provider} → {i : ℕ} → {e : String} → {last last' : Option String}
      → {cb cb' : CircuitBreaker} → is_open (w.checked i) p.name cb ≡ false
      → w.answered i p.name ≡ failed e
      → Passed w ps (i + 1) (some e) (record_failure (w.recorded i) p.name cb) last' cb'
      → Passed w (p ∷ ps) i last cb last' cb'

-- The specification of an answer: those before the provider are passed, it is not open, it
-- answers, and the breaker is told.
pub record Answers {R : Type 0} (w : World R) (ps : List Provider) (i : ℕ) (last : Option String)
    (cb : CircuitBreaker) (r : R) (name : String) (cb' : CircuitBreaker) : Type 0 where
  pub before : List Provider
  pub provider : Provider
  pub rest : List Provider
  pub last_error : Option String
  pub reached : CircuitBreaker
  pub split : ps ≡ before ++ provider ∷ rest
  pub passed : Passed w before i last cb last_error reached
  pub not_open : is_open (w.checked (i + length before)) provider.name reached ≡ false
  pub answer_of : w.answered (i + length before) provider.name ≡ replied r
  pub named : provider.name ≡ name
  pub told : cb' ≡ record_success name reached

pub Reply-cases :
    {R : Type 0} (a : Reply R) → ((e : String) × (a ≡ failed e)) ⊎ ((r : R) × (a ≡ replied r))
Reply-cases (failed e) = inl (e, refl)
Reply-cases (replied r) = inr (r, refl)

module _ {R : Type 0} (w : World R) where
  -- What the end of a walk means.
  abbrev Ends :
      List Provider → ℕ → Option String → CircuitBreaker → Outcome R → CircuitBreaker → Type 0
  Ends ps i last cb (served r name) cb' = Answers w ps i last cb r name cb'
  Ends ps i last cb (gave_up last') cb' = Passed w ps i last cb last' cb'

  Ends-skipped :
      (p : Provider) (ps : List Provider) (i : ℕ) (last : Option String) (cb : CircuitBreaker)
      → (o : Outcome R) (cb' : CircuitBreaker) → is_open (w.checked i) p.name cb ≡ true
      → Ends ps (i + 1) last cb o cb'
      → Ends (p ∷ ps) i last cb o cb'
  Ends-skipped p ps i last cb (gave_up last') cb' tripped h = skipped tripped h
  Ends-skipped p ps i last cb (served r name) cb' tripped h =
      let next : (i + 1) + length h.before ≡ i + length (p ∷ h.before) = omega arith in
      record {
        before = p ∷ h.before;
        provider = h.provider;
        rest = h.rest;
        last_error = h.last_error;
        reached = h.reached;
        split = ap (λ l. p ∷ l) h.split;
        passed = skipped tripped h.passed;
        not_open =
            subst (λ k. is_open (w.checked k) h.provider.name h.reached ≡ false) next h.not_open;
        answer_of = subst (λ k. w.answered k h.provider.name ≡ replied r) next h.answer_of;
        named = h.named;
        told = h.told;
      }

  Ends-in_vain :
      (p : Provider) (ps : List Provider) (i : ℕ) (last : Option String) (cb : CircuitBreaker)
      → (e : String) (o : Outcome R) (cb' : CircuitBreaker)
      → is_open (w.checked i) p.name cb ≡ false
      → w.answered i p.name ≡ failed e
      → Ends ps (i + 1) (some e) (record_failure (w.recorded i) p.name cb) o cb'
      → Ends (p ∷ ps) i last cb o cb'
  Ends-in_vain p ps i last cb e (gave_up last') cb' closed fails h = in_vain closed fails h
  Ends-in_vain p ps i last cb e (served r name) cb' closed fails h =
      let next : (i + 1) + length h.before ≡ i + length (p ∷ h.before) = omega arith in
      record {
        before = p ∷ h.before;
        provider = h.provider;
        rest = h.rest;
        last_error = h.last_error;
        reached = h.reached;
        split = ap (λ l. p ∷ l) h.split;
        passed = in_vain closed fails h.passed;
        not_open =
            subst (λ k. is_open (w.checked k) h.provider.name h.reached ≡ false) next h.not_open;
        answer_of = subst (λ k. w.answered k h.provider.name ≡ replied r) next h.answer_of;
        named = h.named;
        told = h.told;
      }

  Ends-first :
      (p : Provider) (ps : List Provider) (i : ℕ) (last : Option String) (cb : CircuitBreaker)
      (r : R)
      → is_open (w.checked i) p.name cb ≡ false
      → w.answered i p.name ≡ replied r
      → Answers w (p ∷ ps) i last cb r p.name (record_success p.name cb)
  Ends-first p ps i last cb r closed answers =
      let here : i ≡ i + 0 = omega arith in
      record {
        before = [];
        provider = p;
        rest = ps;
        last_error = last;
        reached = cb;
        split = refl;
        passed = nobody;
        not_open = subst (λ k. is_open (w.checked k) p.name cb ≡ false) here closed;
        answer_of = subst (λ k. w.answered k p.name ≡ replied r) here answers;
        named = refl;
        told = refl;
      }

  pub walk-skips :
      (p : Provider) (ps : List Provider) (last : Option String) (i : ℕ) (cb : CircuitBreaker)
      → is_open (w.checked i) p.name cb ≡ true
      → walk w (p ∷ ps) last i cb ≡ walk w ps last (i + 1) cb
  unfolding walk
  walk-skips p ps last i cb tripped = ground arith

  pub walk-fails :
      (p : Provider) (ps : List Provider) (last : Option String) (i : ℕ) (cb : CircuitBreaker)
      → (e : String) → is_open (w.checked i) p.name cb ≡ false
      → w.answered i p.name ≡ failed e
      → walk w (p ∷ ps) last i cb
        ≡ walk w ps (some e) (i + 1) (record_failure (w.recorded i) p.name cb)
  unfolding walk attempt
  walk-fails p ps last i cb e closed fails = ground arith

  pub walk-serves :
      (p : Provider) (ps : List Provider) (last : Option String) (i : ℕ) (cb : CircuitBreaker)
      → (r : R) → is_open (w.checked i) p.name cb ≡ false
      → w.answered i p.name ≡ replied r
      → walk w (p ∷ ps) last i cb ≡ (served r p.name, i + 1, record_success p.name cb)
  unfolding walk attempt
  walk-serves p ps last i cb r closed answers = ground arith

  Goes :
      List Provider → ℕ → Option String → CircuitBreaker → Outcome R × ℕ × CircuitBreaker → Type 0
  Goes ps i last cb res = Ends ps i last cb res.0 res.2

  walk-Ends :
      (ps : List Provider) (last : Option String) (i : ℕ) (cb : CircuitBreaker)
      → Goes ps i last cb (walk w ps last i cb)
  unfolding Goes walk
  walk-Ends [] last i cb = nobody
  walk-Ends (p ∷ ps) last i cb = elim (Bool-cases (is_open (w.checked i) p.name cb)) [
    | inl tripped ↦
        let (o, _, cb') = walk w ps last (i + 1) cb in
        subst (Goes (p ∷ ps) i last cb) (sym (walk-skips p ps last i cb tripped))
          (Ends-skipped p ps i last cb o cb' tripped (walk-Ends ps last (i + 1) cb))
    | inr closed ↦ elim (Reply-cases (w.answered i p.name)) [
      | inl (e, fails) ↦
          let cb1 = record_failure (w.recorded i) p.name cb in
          let (o, _, cb') = walk w ps (some e) (i + 1) cb1 in
          subst (Goes (p ∷ ps) i last cb) (sym (walk-fails p ps last i cb e closed fails))
            (Ends-in_vain p ps i last cb e o cb' closed fails (walk-Ends ps (some e) (i + 1) cb1))
      | inr (r, answers) ↦
          subst (Goes (p ∷ ps) i last cb) (sym (walk-serves p ps last i cb r closed answers))
            (Ends-first p ps i last cb r closed answers)
    ]
  ]

  -- What a result of `tryProviders` stands for.
  pub Explained : String → List Provider → ℕ → CircuitBreaker → Result R → CircuitBreaker → Type 0
  Explained model ps i cb (routed r name region) cb' =
      Answers w ps i none cb r name cb' × (region ≡ "")
  Explained model ps i cb (refused (all_failed e)) cb' = Passed w ps i none cb (some e) cb'
  Explained model ps i cb (refused (none_available m)) cb' =
      Passed w ps i none cb none cb' × (m ≡ model)
  Explained model ps i cb (refused (none_in_regions m)) cb' = ⊥
  Explained model ps i cb (refused (none_in_regions_stream m)) cb' = ⊥
  Explained model ps i cb (refused (no_route m)) cb' = ⊥

  explain :
      (model : String) (ps : List Provider) (i : ℕ) (cb : CircuitBreaker)
      → (o : Outcome R) (cb' : CircuitBreaker) → Ends ps i none cb o cb'
      → Explained model ps i cb (answer w model o) cb'
  unfolding Explained
  explain model ps i cb (served r name) cb' h = (h, refl)
  explain model ps i cb (gave_up (some e)) cb' h = h
  explain model ps i cb (gave_up none) cb' h = (h, refl)

  -- A request along a list of providers ends in one of three ways. It is answered by the first
  -- provider whose breaker is not open and whose call succeeds, every provider before it was
  -- skipped as open or failed. Or all were passed, and the error is the one of the last that
  -- failed. Or all were passed since every one was open. The breaker has counted each failure, and
  -- the success.
  pub try_providers_exact :
      (model : String) (ps : List Provider) (i : ℕ) (cb : CircuitBreaker)
      → let (res, cb') = try_providers w model ps i cb in Explained model ps i cb res cb'
  unfolding try_providers Goes
  try_providers_exact model ps i cb =
      let (o, _, cb') = walk w ps none i cb in explain model ps i cb o cb' (walk-Ends ps none i cb)

  -- Who answers stands in the list.
  pub served_by :
      (model : String) (ps : List Provider) (i : ℕ) (cb : CircuitBreaker)
      → (r : R) (name region : String) → (try_providers w model ps i cb).0 ≡ routed r name region
      → Answers w ps i none cb r name (try_providers w model ps i cb).1
  unfolding Explained
  served_by model ps i cb r name region e =
      (subst (λ res. Explained model ps i cb res (try_providers w model ps i cb).1) e
        (try_providers_exact model ps i cb)).0
