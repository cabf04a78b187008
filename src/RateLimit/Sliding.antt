-- ===== src/RateLimit/Sliding.antt =====
-- internal/ratelimit/memory.go: what a key is granted over a history of calls.
use aigateway.Prelude.{
  ℕ, ◌+◌, ◌*◌, ◌≤◌, ◌≡◌, ◌⊎◌, inl, inr, String, none, some, List, [], ◌∷◌, arith, if◌then◌else◌,
  ◌&&◌, str_eq, eq_iff, Option-cases, Bool-cases, All, All-imp,
}
use aigateway.Prelude.Dict.{lookup}
use aigateway.RateLimit.{Window, MemoryLimiter, restart, charge, Call, allow}
use aigateway.RateLimit.Limits.{
  IsBounded, current, allow_verdict, lookup-allow, limit-allow, period-allow,
}

-- The limiter after a list of calls, and the cost that it granted to one key on the way.
pub run : List Call → MemoryLimiter → MemoryLimiter
run [] m = m
run (c ∷ cs) m = run cs (allow c m).1

pub grant : String → Call → MemoryLimiter → ℕ
grant k c m = if (allow c m).0 && str_eq c.key k then c.cost else 0

unfoldable pub granted : String → List Call → MemoryLimiter → ℕ
unfolding grant
granted k [] m = 0
granted k (c ∷ cs) m = grant k c m + granted k cs (allow c m).1

-- Both clock readings of a call lie in a span of time.
abbrev pub InSpan : ℕ → ℕ → Call → Type 0
InSpan from to c = (from ≤ c.t) × (from ≤ c.now) × (c.now ≤ to)

-- The window of key `k` after a call that met `w` there.
after : String → Call → MemoryLimiter → Window → Window
after k c m w = if str_eq c.key k then (charge m.limit c.cost (restart m.period c.now w)).1 else w

lookup-after :
    (k : String) (c : Call) (m : MemoryLimiter) (w : Window)
    → lookup k m.windows ≡ some w
    → lookup k (allow c m).1.windows ≡ some (after k c m w)
unfolding after
lookup-after k c m w e = ground (arith, lookup-allow c m k, eq_iff c.key k)

after_in_window :
    (k : String) (c : Call) (m : MemoryLimiter) (w : Window)
    → lookup k m.windows ≡ some w
    → w.count ≤ m.limit
    → c.now ≤ w.reset_at
    → ((after k c m w).reset_at ≡ w.reset_at)
      × ((after k c m w).count ≤ m.limit)
      × (w.count + grant k c m ≤ (after k c m w).count)
unfolding after grant charge restart
after_in_window k c m w e fits open_ = ground (arith, allow_verdict c m, eq_iff c.key k)

-- A key whose window ends after the span is granted what is left of the limit.
granted_in_window :
    (k : String) (w : Window) (to : ℕ) (cs : List Call) (m : MemoryLimiter)
    → lookup k m.windows ≡ some w
    → w.count ≤ m.limit
    → to ≤ w.reset_at
    → All (λ c. c.now ≤ to) cs
    → w.count + granted k cs m ≤ m.limit
unfolding granted
granted_in_window k w to [] m e fits ends all = omega arith
granted_in_window k w to (c ∷ cs) m e fits ends all =
    let s = after_in_window k c m w e fits (omega arith) in
    let ih =
      granted_in_window k (after k c m w) to cs (allow c m).1 (lookup-after k c m w e)
        (omega (arith, limit-allow c m)) (omega arith) all.1 in
    omega (arith, limit-allow c m)

-- What a call makes of a window in a span: it keeps the window, or begins one that outlives the
-- span.
after-InSpan :
    (k : String) (from to : ℕ) (c : Call) (m : MemoryLimiter) (w : Window)
    → lookup k m.windows ≡ some w
    → w.count ≤ m.limit
    → to ≤ from + m.period
    → InSpan from to c
    → ((after k c m w).count ≤ m.limit)
      × (grant k c m ≤ (after k c m w).count)
      × (((after k c m w).reset_at ≡ w.reset_at) × (w.count + grant k c m ≤ (after k c m w).count)
          ⊎ (to ≤ (after k c m w).reset_at))
unfolding after grant charge restart
after-InSpan k from to c m w e fits short span = ground (arith, allow_verdict c m, eq_iff c.key k)

granted_from_window :
    (k : String) (from to : ℕ) (w : Window) (cs : List Call) (m : MemoryLimiter)
    → lookup k m.windows ≡ some w
    → w.count ≤ m.limit
    → to ≤ from + m.period
    → All (InSpan from to) cs
    → w.count + granted k cs m ≤ 2 * m.limit
unfolding granted
granted_from_window k from to w [] m e fits short all = omega arith
granted_from_window k from to w (c ∷ cs) m e fits short all =
    let s = after-InSpan k from to c m w e fits short all.0 in
    let next = lookup-after k c m w e in
    let rest =
      granted_from_window k from to (after k c m w) cs (allow c m).1 next
        (omega (arith, limit-allow c m)) (omega (arith, period-allow c m)) all.1 in
    let last = λ (h : to ≤ (after k c m w).reset_at).
      granted_in_window k (after k c m w) to cs (allow c m).1 next (omega (arith, limit-allow c m))
        h (All-imp cs (λ x i. i.2) all.1) in
    elim s.2 [
      | inl kept ↦ omega (arith, limit-allow c m)
      | inr long ↦ omega (arith, limit-allow c m, last long)
    ]

-- A call for a key with no window makes one that outlives the span; any other leaves none.
first-InSpan :
    (k : String) (from to : ℕ) (c : Call) (m : MemoryLimiter)
    → lookup k m.windows ≡ none
    → to ≤ from + m.period
    → InSpan from to c
    → ((lookup k (allow c m).1.windows ≡ none) × (grant k c m ≡ 0))
      ⊎ ((w : Window) × (lookup k (allow c m).1.windows ≡ some w)
          × (w.count ≤ m.limit)
          × (grant k c m ≤ w.count)
          × (to ≤ w.reset_at))
unfolding grant charge restart
first-InSpan k from to c m e short span = elim (Bool-cases (str_eq c.key k)) [
  | inl hit ↦ inr (
    (charge m.limit c.cost (current c m)).1,
    ground (arith, lookup-allow c m k),
    ground (arith, allow_verdict c m, eq_iff c.key k),
    ground (arith, allow_verdict c m, eq_iff c.key k),
    ground (arith, allow_verdict c m, eq_iff c.key k),
  )
  | inr miss ↦ inl (ground (arith, lookup-allow c m k), ground arith)
]

granted_from_none :
    (k : String) (from to : ℕ) (cs : List Call) (m : MemoryLimiter)
    → lookup k m.windows ≡ none
    → to ≤ from + m.period
    → All (InSpan from to) cs
    → granted k cs m ≤ m.limit
unfolding granted
granted_from_none k from to [] m e short all = omega arith
granted_from_none k from to (c ∷ cs) m e short all =
    elim (first-InSpan k from to c m e short all.0) [
      | inl (e', g) ↦ omega (
        arith,
        limit-allow c m,
        granted_from_none k from to cs (allow c m).1 e' (omega (arith, period-allow c m)) all.1,
      )
      | inr (w, e', fits, g, long) ↦ omega (
        arith,
        limit-allow c m,
        granted_in_window k w to cs (allow c m).1 e' (omega (arith, limit-allow c m)) long
            (All-imp cs (λ x i. i.2) all.1),
      )
    ]

-- In any span of time no longer than the period a bounded limiter grants a key at most twice the
-- limit, whatever calls for other keys come between; and at most the limit, if the key had no
-- window before.
pub granted_bound :
    (k : String) (from to : ℕ) (cs : List Call) (m : MemoryLimiter)
    → IsBounded m
    → to ≤ from + m.period
    → All (InSpan from to) cs
    → granted k cs m ≤ elim (lookup k m.windows) [ none ↦ m.limit | some w ↦ 2 * m.limit ]
granted_bound k from to cs m h short all = elim (Option-cases (lookup k m.windows)) [
  | inl e ↦ rw e (granted_from_none k from to cs m e short all)
  | inr (w, e) ↦
      rw e (omega (arith, granted_from_window k from to w cs m e (h.at_key k w e) short all))
]
