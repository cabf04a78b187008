-- ===== src/Rollout/Health.antt =====
-- internal/rollout/evaluator.go: which requests a verdict depends on, and what makes it.
use mathlib.Core.List.{Permᴰ}
use aigateway.Prelude.{
  ℕ, zero, suc, ◌+◌, ◌≤◌, ◌<◌, ◌≡◌, refl, ap, subst, ◌∙◌, ◌↔◌, Bool, true, false, List, [], ◌∷◌,
  ◌&&◌, ◌||◌, arith, All, length, map, keep, get_or, ltb,
}
use aigateway.Float.{Float64}
use aigateway.RequestLog.{RequestEntry}
use aigateway.Rollout.Types.{Rollout, HealthMetrics, running}
use aigateway.Rollout.Evaluator.{
  Decision, Library, is_server_error, p95_index, calculate_health, in_window, is_canary, metrics_of,
  judge, evaluate,
}

keep-keep :
    (p q : RequestEntry → Bool) (es : List RequestEntry)
    → keep p (keep q es) ≡ keep (λ e. q e && p e) es
keep-keep p q [] = refl
keep-keep p q (e ∷ es) = ground (arith, keep-keep p q es)

keep_idem : (p : RequestEntry → Bool) (es : List RequestEntry) → keep p (keep p es) ≡ keep p es
keep_idem p [] = refl
keep_idem p (e ∷ es) = ground (arith, keep_idem p es)

module _ (fl : Float64) (lib : Library fl) where
  open fl use {F, of_int, to_int, mul, div, lt}

  -- The canary's requests for the model inside the window.
  abbrev pub canary_requests : ℕ → List RequestEntry → Rollout F → List RequestEntry
  canary_requests now es r = keep (is_canary fl lib r) (keep (in_window fl lib now r) es)

  -- A verdict depends only on the requests for the rollout's model inside the window.
  pub evaluate-window :
      (since now : ℕ) (es : List RequestEntry) (r : Rollout F)
      → evaluate fl lib since now (keep (in_window fl lib now r) es) r
        ≡ evaluate fl lib since now es r
  unfolding evaluate metrics_of
  evaluate-window since now es r = rw (keep_idem (in_window fl lib now r) es)

  p95_index-lt : (n : ℕ) → 0 < n → p95_index fl lib n < n
  unfolding p95_index
  p95_index-lt n h = ground arith

  requests-calculate_health :
      (es : List RequestEntry) → (calculate_health fl lib es).requests ≡ length es
  unfolding calculate_health
  requests-calculate_health [] = refl
  requests-calculate_health (e ∷ es) = refl

  -- The canary's measured health, as `evaluate` takes it.
  abbrev pub canary_health : ℕ → List RequestEntry → Rollout F → HealthMetrics F
  canary_health now es r = calculate_health fl lib (canary_requests now es r)

  -- The verdict is to promote exactly when the rollout runs, its observation window has passed, and
  -- the canary has at least ten requests in the window, with an error rate and a 95th percentile
  -- of the latency that are not above their thresholds. It is to roll back exactly when all this
  -- holds but one of the two is above.
  pub evaluate_exact :
      (since now : ℕ) (es : List RequestEntry) (r : Rollout F)
      → let e = evaluate fl lib since now es r in
        let due =
          (r.state ≡ running)
          × (r.stage_started_at + r.observation_window ≤ since)
          × (10 ≤ length (canary_requests now es r)) in
        let bad =
          lt r.error_threshold (canary_health now es r).error_rate
          || ltb r.latency_p95_threshold (canary_health now es r).p95_latency_ms in
        ((e.decision ≡ Decision.promote) ↔ (due × (bad ≡ false)))
        × ((e.decision ≡ Decision.rollback) ↔ (due × (bad ≡ true)))
  unfolding evaluate metrics_of judge
  evaluate_exact since now es r =
      let count = requests-calculate_health (canary_requests now es r) in
      (
        (ground (arith, count), ground (arith, count)),
        (ground (arith, count), ground (arith, count)),
      )

  All-perm : (P : ℕ → Type 0) {xs ys : List ℕ} → Permᴰ xs ys → All P xs → All P ys
  All-perm P Permᴰ.nil h = tt
  All-perm P (Permᴰ.cons e p) h = (subst P e h.0, All-perm P p h.1)
  All-perm P (Permᴰ.swap e e') h = (subst P e' h.1.0, (subst P e h.0, h.1.1))
  All-perm P (Permᴰ.trans p q) h = All-perm P q (All-perm P p h)

  get_or-le : (n : ℕ) (xs : List ℕ) (i : ℕ) → All (λ x. x ≤ n) xs → get_or xs i 0 ≤ n
  get_or-le n [] i h = omega arith
  get_or-le n (x ∷ xs) zero h = h.0
  get_or-le n (x ∷ xs) (suc i) h = get_or-le n xs i h.1

  latencies-le :
      (n : ℕ) (es : List RequestEntry)
      → All (λ e. e.latency_ms ≤ n) es
      → All (λ x. x ≤ n) (map (λ e. e.latency_ms) es)
  latencies-le n [] h = tt
  latencies-le n (e ∷ es) h = (h.0, latencies-le n es h.1)

  no_errors :
      (es : List RequestEntry)
      → All (λ e. e.status < 500) es
      → length (keep (is_server_error fl lib) es) ≡ 0
  no_errors [] h = refl
  no_errors (e ∷ es) h = ground (arith, no_errors es h.1)

  p95-le :
      (n : ℕ) (es : List RequestEntry)
      → ((xs : List ℕ) → Permᴰ xs (lib.sort_ints xs))
      → All (λ e. e.latency_ms ≤ n) es
      → (calculate_health fl lib es).p95_latency_ms ≤ n
  unfolding calculate_health
  p95-le n [] permutes h = omega arith
  p95-le n (e ∷ es) permutes h =
      get_or-le n _ _ (All-perm (λ x. x ≤ n) (permutes _) (latencies-le n (e ∷ es) h))

  -- The error rate of requests without errors, on floats.
  abbrev pub rate : ℕ → ℕ → F
  rate errors total = mul (div (of_int errors) (of_int total)) (of_int 100)

  error_rate-eq :
      (es : List RequestEntry)
      → 0 < length es
      → All (λ e. e.status < 500) es
      → (calculate_health fl lib es).error_rate ≡ rate 0 (length es)
  unfolding calculate_health
  error_rate-eq [] pos h = elim pos [ ]
  error_rate-eq (e ∷ es) pos h = rw (no_errors (e ∷ es) h)

  -- A canary is promoted if its window has passed and it served at least ten requests in it, none
  -- with a server error and none slower than the threshold; where the sort permutes, and an error
  -- rate of nought is not above the threshold.
  pub healthy_is_promoted :
      (since now : ℕ) (es : List RequestEntry) (r : Rollout F)
      → ((xs : List ℕ) → Permᴰ xs (lib.sort_ints xs))
      → ((n : ℕ) → 0 < n → lt r.error_threshold (rate 0 n) ≡ false)
      → r.state ≡ running
      → r.stage_started_at + r.observation_window ≤ since
      → 10 ≤ length (canary_requests now es r)
      → All (λ e. e.status < 500) (canary_requests now es r)
      → All (λ e. e.latency_ms ≤ r.latency_p95_threshold) (canary_requests now es r)
      → (evaluate fl lib since now es r).decision ≡ Decision.promote
  healthy_is_promoted since now es r permutes zero_rate live passed enough fine fast =
      let some_requests : 0 < length (canary_requests now es r) = omega arith in
      let rate_eq = error_rate-eq (canary_requests now es r) some_requests fine in
      let low =
        ap (lt r.error_threshold) rate_eq
        ∙ zero_rate (length (canary_requests now es r)) some_requests in
      (evaluate_exact since now es r).0.1 (
        (live, passed, enough),
        ground
            (arith, low, p95-le r.latency_p95_threshold (canary_requests now es r) permutes fast),
      )
