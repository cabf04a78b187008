-- ===== src/Router/Breaker.antt =====
-- internal/router/fallback.go: the circuit breaker. The clock is an argument; failure counts are
-- natural numbers.
use aigateway.Prelude.{
  ℕ, suc, ◌+◌, ◌≤◌, ◌<◌, ◌≡◌, ◌↔◌, refl, String, Bool, true, false, Option, none, some, List, [],
  ◌∷◌, arith, ltb, if◌then◌else◌, str_eq, eq_iff, Option-cases, inl, inr,
}
use aigateway.Prelude.Dict.{Dict, lookup, insert, remove, lookup-insert, lookup-remove}

pub record CircuitBreaker : Type 0 where
  pub failures : Dict ℕ
  pub last_failure : Dict ℕ
  pub threshold : ℕ
  pub reset_after : ℕ

unfoldable pub new_circuit_breaker : ℕ → ℕ → CircuitBreaker
new_circuit_breaker threshold reset_after = record {
  failures = [];
  last_failure = [];
  threshold = threshold;
  reset_after = reset_after;
}

unfoldable pub is_open : ℕ → String → CircuitBreaker → Bool
is_open now name cb = elim (lookup name cb.failures) [
  | none ↦ false
  | some count ↦ if ltb count cb.threshold then false else elim (lookup name cb.last_failure) [
    | none ↦ false
    | some last ↦ if ltb (last + cb.reset_after) now then false else true
  ]
]

-- A missing count reads as 0.
unfoldable pub count_of : Option ℕ → ℕ
count_of none = 0
count_of (some n) = n

unfoldable pub record_failure : ℕ → String → CircuitBreaker → CircuitBreaker
unfolding count_of
record_failure now name cb = record cb {
  failures = insert name (count_of (lookup name cb.failures) + 1) cb.failures;
  last_failure = insert name now cb.last_failure;
}

unfoldable pub record_success : String → CircuitBreaker → CircuitBreaker
record_success name cb = record cb {
  failures = insert name 0 cb.failures;
  last_failure = remove name cb.last_failure;
}

-- What callers report to the breaker, the latest report first.
pub data Report : Type 0 where
  failed : ℕ → String → Report
  succeeded : String → Report

pub after : List Report → CircuitBreaker → CircuitBreaker
after [] cb = cb
after (failed now name ∷ rs) cb = record_failure now name (after rs cb)
after (succeeded name ∷ rs) cb = record_success name (after rs cb)

-- The specification: the failures of a provider since its last success, and the time of the last.
pub streak : String → List Report → ℕ
streak p [] = 0
streak p (failed now name ∷ rs) = let n = streak p rs in if str_eq name p then suc n else n
streak p (succeeded name ∷ rs) = let n = streak p rs in if str_eq name p then 0 else n

pub last_failed : String → List Report → Option ℕ
last_failed p [] = none
last_failed p (failed now name ∷ rs) =
    let t = last_failed p rs in if str_eq name p then some now else t
last_failed p (succeeded name ∷ rs) = let t = last_failed p rs in if str_eq name p then none else t

module _ (threshold reset_after : ℕ) where
  abbrev breaker : List Report → CircuitBreaker
  breaker rs = after rs (new_circuit_breaker threshold reset_after)

  settings-after :
      (rs : List Report)
      → ((breaker rs).threshold ≡ threshold) × ((breaker rs).reset_after ≡ reset_after)
  unfolding after record_failure record_success new_circuit_breaker
  settings-after [] = (refl, refl)
  settings-after (failed now name ∷ rs) = settings-after rs
  settings-after (succeeded name ∷ rs) = settings-after rs

  failures-after :
      (p : String) (rs : List Report) → count_of (lookup p (breaker rs).failures) ≡ streak p rs
  unfolding after streak record_failure record_success new_circuit_breaker lookup count_of
  failures-after p [] = refl
  failures-after p (failed now name ∷ rs) =
      let n = count_of (lookup name (breaker rs).failures) + 1 in
      ground
        (arith, failures-after p rs, eq_iff name p, lookup-insert name p n (breaker rs).failures)
  failures-after p (succeeded name ∷ rs) =
      ground
        (arith, failures-after p rs, eq_iff name p, lookup-insert name p 0 (breaker rs).failures)

  last_failure-after :
      (p : String) (rs : List Report) → lookup p (breaker rs).last_failure ≡ last_failed p rs
  unfolding after last_failed record_failure record_success new_circuit_breaker lookup
  last_failure-after p [] = refl
  last_failure-after p (failed now name ∷ rs) = ground (
    arith,
    last_failure-after p rs,
    eq_iff name p,
    lookup-insert name p now (breaker rs).last_failure,
  )
  last_failure-after p (succeeded name ∷ rs) = ground (
    arith,
    last_failure-after p rs,
    eq_iff name p,
    lookup-remove name p (breaker rs).last_failure,
  )

  -- After any reports the breaker of a provider is open exactly when the provider has failed at
  -- least `threshold` times since its last success, the last time no longer than `reset_after`
  -- ago, where `threshold` is not 0. Reports about other providers do not matter.
  pub is_open_exact :
      (p : String) (now : ℕ) (rs : List Report)
      → 0 < threshold
      → (is_open now p (after rs (new_circuit_breaker threshold reset_after)) ≡ true) ↔ (
          (threshold ≤ streak p rs)
          × ((t : ℕ) × (last_failed p rs ≡ some t) × (now ≤ t + reset_after)))
  unfolding is_open count_of
  is_open_exact p now rs pos =
      let count = failures-after p rs in
      let last = last_failure-after p rs in
      let settings = settings-after rs in
      (
        elim (Option-cases (last_failed p rs)) [
          | inl e ↦ λ h. absurd (ground arith)
          | inr (t, e) ↦ λ h. (ground arith, (t, e, ground arith))
        ],
        λ h. ground arith,
      )
