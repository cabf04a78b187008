-- ===== src/RateLimit/Limits.antt =====
-- internal/ratelimit/memory.go: what one call does to the windows.
use aigateway.Prelude.{
  ℕ, ◌+◌, ◌≤◌, ◌≡◌, ◌≢◌, ◌↔◌, inl, inr, String, true, none, some, arith, ltb, if◌then◌else◌, str_eq,
  eq_iff, Option-cases,
}
use aigateway.Prelude.Dict.{lookup, insert, lookup-insert}
use aigateway.RateLimit.{Window, MemoryLimiter, new_memory_limiter, restart, charge, Call, allow}

-- The window that a call meets: its own, or a new one.
abbrev pub met : Call → MemoryLimiter → Window
met c m = elim (lookup c.key m.windows) [
  | some w ↦ w
  | none ↦ record { count = 0; reset_at = c.t + m.period }
]

-- The window of a call after the restart of one that has ended.
abbrev pub current : Call → MemoryLimiter → Window
current c m = restart m.period c.now (met c m)

pub allow_verdict :
    (c : Call) (m : MemoryLimiter) → (allow c m).0 ≡ (charge m.limit c.cost (current c m)).0
unfolding allow
allow_verdict c m = ground arith

pub limit-allow : (c : Call) (m : MemoryLimiter) → (allow c m).1.limit ≡ m.limit
unfolding allow
limit-allow c m = ground arith

pub period-allow : (c : Call) (m : MemoryLimiter) → (allow c m).1.period ≡ m.period
unfolding allow
period-allow c m = ground arith

pub lookup-allow :
    (c : Call) (m : MemoryLimiter) (k : String)
    → lookup k (allow c m).1.windows ≡ (
        if str_eq c.key k then some (charge m.limit c.cost (current c m)).1 else lookup k m.windows)
unfolding allow
lookup-allow c m k = ground (
  arith,
  eq_iff c.key k,
  lookup-insert c.key k (charge m.limit c.cost (current c m)).1 m.windows,
  lookup-insert c.key k (charge m.limit c.cost (current c m)).1 (insert c.key (met c m) m.windows),
  lookup-insert c.key k (met c m) m.windows,
)

-- No window ever holds more than the limit.
pub record IsBounded (m : MemoryLimiter) : Type 0 where
  pub at_key : (k : String) (w : Window) → lookup k m.windows ≡ some w → w.count ≤ m.limit

met-le : (c : Call) (m : MemoryLimiter) → IsBounded m → (met c m).count ≤ m.limit
met-le c m h = elim (Option-cases (lookup c.key m.windows)) [
  | inl e ↦ rw (e, met) (omega arith)
  | inr (w, e) ↦ rw (e, met) (h.at_key c.key w e)
]

pub charge-le :
    (c : Call) (m : MemoryLimiter)
    → IsBounded m
    → (charge m.limit c.cost (current c m)).1.count ≤ m.limit
unfolding charge restart
charge-le c m h = ground (arith, met-le c m h)

-- A call, admitted or not, keeps a limiter bounded: no window of any key counts more than the
-- limit.
pub allow-IsBounded : (c : Call) (m : MemoryLimiter) → IsBounded m → IsBounded (allow c m).1
allow-IsBounded c m h = record {
  at_key = λ k w. rw (lookup-allow, limit-allow) (ground (arith, charge-le c m h, h.at_key k w));
}

pub new_memory_limiter-IsBounded : (limit period : ℕ) → IsBounded (new_memory_limiter limit period)
unfolding new_memory_limiter lookup
new_memory_limiter-IsBounded limit period = record { at_key = λ k w e. cc }

-- What a key has spent when a call comes: nothing in a window that is missing or has ended.
pub spent : Call → MemoryLimiter → ℕ
spent c m = elim (lookup c.key m.windows) [
  | some w ↦ if ltb w.reset_at c.now then 0 else w.count
  | none ↦ 0
]

-- A call is admitted exactly when its cost fits beside what its key has spent in a window that has
-- not ended; and it leaves the windows of all other keys as they were.
pub allow_exact :
    (c : Call) (m : MemoryLimiter)
    → (((allow c m).0 ≡ true) ↔ (spent c m + c.cost ≤ m.limit))
      × ((k : String) → c.key ≢ k → lookup k (allow c m).1.windows ≡ lookup k m.windows)
unfolding spent charge restart
allow_exact c m = (
  (ground (arith, allow_verdict c m), ground (arith, allow_verdict c m)),
  λ k h. rw lookup-allow (ground (arith, eq_iff c.key k)),
)
