-- ===== src/RateLimit/SharedTests.antt =====
-- A Redis that is a map of values with the ends of their times, and a run of the limiter on it.
use aigateway.Prelude.{
  ◌≡◌, refl, ◌≢◌, ℕ, ◌+◌, ◌*◌, ◌≤◌, true, Option, none, some, List, [], ◌∷◌, ltb, arith, eq_iff,
  if◌then◌else◌,
}
use aigateway.Prelude.Dict.{Dict, lookup, insert, lookup-insert}
use aigateway.RateLimit.Redis.{Redis, IsRedis, RedisLimiter, Call, second, plus, allow}
use aigateway.RateLimit.Shared.{granted, none_left, next, granted_within_limit}

abbrev alive : ℕ → Option (ℕ × ℕ) → Option ℕ
alive t none = none
alive t (some (v, end)) = if ltb t end then some v else none

abbrev raised : ℕ → Option (ℕ × ℕ) → ℕ × ℕ
raised n none = (n, 0)
raised n (some (v, end)) = (v + n, end)

abbrev memory_redis : Redis
memory_redis = record {
  S = Dict (ℕ × ℕ);
  get = λ t k s. alive t (lookup k s);
  set_ex = λ now k v seconds s. insert k (v, now + seconds * second) s;
  incr_by = λ now k n s. insert k (raised n (lookup k s)) s;
}

alive-raised :
    (now t n : ℕ) (o : Option (ℕ × ℕ))
    → alive now o ≢ none
    → alive t (some (raised n o)) ≡ plus n (alive t o)
alive-raised now t n none h = absurd (h refl)
alive-raised now t n (some (v, end)) h = ground arith

memory_redis-IsRedis : IsRedis memory_redis
memory_redis-IsRedis = record {
  get-set_ex = λ now t k j v seconds s a long.
      ground (arith, lookup-insert k j (v, now + seconds * second) s);
  get-incr_by = λ now t k j n s a there. ground (
    arith,
    lookup-insert k j (raised n (lookup k s)) s,
    alive-raised now t n (lookup k s) there,
    eq_iff k j,
  );
}

abbrev per_minute : RedisLimiter
per_minute = record { limit = 3; period = 60 * second }

-- The last call runs into an error after the script was run.
abbrev calls : List Call
calls =
    record { key = "acme"; cost = 2; now = 5; error = none }
    ∷ record { key = "acme"; cost = 2; now = 6; error = none }
    ∷ record { key = "zeta"; cost = 3; now = 7; error = none }
    ∷ record {
      key = "acme";
      cost = 1;
      now = 8;
      error = some record { text = "timeout"; ran = true };
    }
    ∷ []

what_is_granted : granted memory_redis per_minute "acme" calls [] ≡ 2
unfolding granted lookup insert allow
what_is_granted = refl

granted_within_limit_example : granted memory_redis per_minute "acme" calls [] ≤ 3
unfolding lookup
granted_within_limit_example =
    granted_within_limit memory_redis per_minute memory_redis-IsRedis 0 "acme" calls []
      (omega arith)
      (next 0 (60 * second) _ _ (omega arith) (omega arith) (
        next 5 (60 * second) _ _ (omega arith) (omega arith) (
          next 6 (60 * second) _ _ (omega arith) (omega arith)
            (next 7 (60 * second) _ _ (omega arith) (omega arith) (none_left 8 (60 * second))))))
      (λ t a. refl)
