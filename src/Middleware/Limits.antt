-- ===== src/Middleware/Limits.antt =====
-- internal/ratelimit/limiter.go: the interface of the rate limiters. The in-memory limiter
-- implements it and never fails; its clock readings are part of the state that it is called with.
use aigateway.Prelude.{ℕ, String, Bool}
use aigateway.RateLimit.{MemoryLimiter, allow}

pub data LimitReply : Type 0 where
  verdict : Bool → LimitReply
  unavailable : LimitReply

pub record Limiter (S : Type 0) : Type 0 where
  pub allow : String → ℕ → S → LimitReply × S

-- The in-memory limiter, at two clock readings.
abbrev pub memory_limiter : ℕ → ℕ → Limiter MemoryLimiter
memory_limiter t now = record {
  allow = λ key cost m.
      let (ok, m') = allow (record { key = key; cost = cost; t = t; now = now }) m in
      (verdict ok, m');
}
