-- ===== src/RequestLog/Violations.antt =====
-- internal/admin/requestlog.go: the latest requests that met a policy.
use mathlib.Core.Path.{◌∙◌}
use aigateway.Prelude.{
  ℕ, zero, suc, ◌+◌, ◌≤◌, ◌≡◌, refl, ap, ◌⊎◌, Bool, not, List, [], ◌∷◌, arith, take, keep, ◌==◌,
  min, length, if◌then◌else◌, str_eq, inl, inr,
}
use aigateway.RequestLog.{RequestEntry, new_request_log, recent, violations, recent_violations}
use aigateway.RequestLog.History.{after, after-Holds, max_size-after, recent_exact, capacity}

abbrev pub hit : RequestEntry → Bool
hit e = not (str_eq e.policy_hit "")

-- The loop takes `suc w` violations: those that are left of `n`, or one if none is left.
abbrev Wanted : ℕ → ℕ → ℕ → Type 0
Wanted n found w = ((n ≤ found + 1) × (w ≡ 0)) ⊎ (found + suc w ≡ n)

violations-take :
    (n found w : ℕ) (es : List RequestEntry)
    → Wanted n found w
    → violations n found es ≡ take (suc w) (keep hit es)
unfolding violations
violations-take n found w [] h = refl
violations-take n found zero (e ∷ es) h = ground (arith, violations-take n found 0 es)
violations-take n found (suc w) (e ∷ es) h =
    ground (arith, violations-take n found (suc w) es, violations-take n (found + 1) w es)

count-after :
    (n : ℕ) (es : List RequestEntry)
    → (after es (new_request_log n)).count ≡ min (length es) (capacity n)
count-after n es = omega (arith, (after-Holds n es).counted, max_size-after n es)

violations-wanted :
    (n : ℕ) (es : List RequestEntry)
    → violations n 0 es ≡ take (if n == 0 then 1 else n) (keep hit es)
violations-wanted zero es = violations-take 0 0 0 es (inl (omega arith, refl))
violations-wanted (suc n) es =
    let some_wanted : suc n ≡ (if suc n == 0 then 1 else suc n) = ground arith in
    violations-take (suc n) 0 n es (inr (omega arith)) ∙ ap (λ k. take k (keep hit es)) some_wanted

-- After any requests `RecentViolations n` shows, of those that the buffer holds, the latest `n`
-- that met a policy, the latest first; one of them where `n` is 0.
pub recent_violations_exact :
    (max_size n : ℕ) (es : List RequestEntry)
    → recent_violations n (after es (new_request_log max_size))
      ≡ take (if n == 0 then 1 else n) (keep hit (take (min (length es) (capacity max_size)) es))
unfolding recent_violations
recent_violations_exact max_size n es =
    let rl = after es (new_request_log max_size) in
    let held = min (length es) (capacity max_size) in
    let count = count-after max_size es in
    let size : (if rl.count == 0 then held else min rl.count held) ≡ held = ground arith in
    let shown : recent rl.count rl ≡ take held es =
      recent_exact max_size rl.count es ∙ ap (λ k. take k es) size in
    ap (violations n 0) shown ∙ violations-wanted n (take held es)
