-- ===== src/RateLimit/Shared.antt =====
-- internal/ratelimit/redis.go: what a key is granted by all the gateways that share a Redis.
use aigateway.Prelude.{◌≡◌, refl, ℕ, ◌+◌, ◌*◌, ◌/◌, ◌≤◌, ◌<◌, String, none, List, [], ◌∷◌, arith}
use aigateway.RateLimit.Redis.{Redis, IsRedis, RedisLimiter, Call, redis_key, second, allow}
use aigateway.RateLimit.Counter.{grant, Counted, absent, present, Counted-later, step}

module _ (R : Redis) (r : RedisLimiter) where
  -- The cost that a list of calls is granted for one key.
  unfoldable pub granted : String → List Call → R.S → ℕ
  unfolding grant
  granted k [] s = 0
  granted k (c ∷ cs) s = grant R r k c s + granted k cs (allow R r c s).1

  -- The calls come one after the other, from one time on, and before another.
  pub data InOrder : ℕ → ℕ → List Call → Type 0 where
    none_left : (from to : ℕ) → InOrder from to []
    next :
        (from to : ℕ) (c : Call) (cs : List Call)
        → from ≤ c.now
        → c.now < to
        → InOrder c.now to cs
        → InOrder from to (c ∷ cs)

  module _ (law : IsRedis R) where
    granted_from :
        (now to start : ℕ) (k : String) (g : ℕ) (cs : List Call) (s : R.S)
        → start ≤ now
        → to ≤ start + (r.period / second) * second
        → 0 < r.period / second
        → InOrder now to cs
        → Counted R r now to k g s
        → g + granted k cs s ≤ r.limit
    unfolding granted
    granted_from now to start k g [] s begins ends long order (absent none_yet f) = omega arith
    granted_from now to start k g [] s begins ends long order (present v above within f) =
        omega arith
    granted_from now to start k g (c ∷ cs) s begins ends long
          (next from' to' c' cs' later before order) h =
        let h' =
          step R r law now to start k g c s (omega arith) ends before long
            (Counted-later R r now c.now to g k s later h) in
        let rest =
          granted_from c.now to start k (g + grant R r k c s) cs (allow R r c s).1 (omega arith)
            ends long order h' in
        omega (arith, rest)

    -- On a Redis that keeps its laws, a key that has no counter is granted at most the limit, together, by
    -- calls that come one after the other within one period, counted in whole seconds, whichever gateways
    -- send them; the period is at least a second.
    pub granted_within_limit :
        (start : ℕ) (k : String) (cs : List Call) (s : R.S)
        → 0 < r.period / second
        → InOrder start (start + (r.period / second) * second) cs
        → ((t : ℕ) → start ≤ t → R.get t (redis_key k) s ≡ none)
        → granted k cs s ≤ r.limit
    granted_within_limit start k cs s long order unused =
        let bound =
          granted_from start (start + (r.period / second) * second) start k 0 cs s (omega arith)
            (omega arith) long order (absent refl (λ t a b. unused t a)) in
        omega (arith, bound)
