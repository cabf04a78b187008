-- ===== src/RateLimit/Tests.antt =====
-- Runs of the limiter of internal/ratelimit/memory.go, and the theorems at them.
use aigateway.Prelude.{◌*◌, ◌≤◌, ◌≡◌, refl, false, none, some, List, [], ◌∷◌, arith}
use aigateway.Prelude.Dict.{lookup, insert}
use aigateway.RateLimit.{MemoryLimiter, new_memory_limiter, Call, allow}
use aigateway.RateLimit.Limits.{IsBounded, new_memory_limiter-IsBounded}
use aigateway.RateLimit.Sliding.{granted, granted_bound}

-- Three requests a minute, the minute having 60 ticks.
abbrev fresh : MemoryLimiter
fresh = new_memory_limiter 3 60

abbrev first_call : Call
first_call = record { key = "acme"; cost = 2; t = 5; now = 5 }

abbrev history : List Call
history =
    first_call
    ∷ record { key = "acme"; cost = 2; t = 6; now = 7 }
    ∷ record { key = "zeta"; cost = 3; t = 8; now = 8 }
    ∷ record { key = "acme"; cost = 1; t = 9; now = 60 }
    ∷ []

granted-history : granted "acme" history fresh ≡ 3
unfolding granted allow lookup insert new_memory_limiter
granted-history = refl

refused : (allow (record first_call { cost = 4 }) fresh).0 ≡ false
unfolding allow lookup insert new_memory_limiter
refused = refl

fresh-IsBounded : IsBounded fresh
fresh-IsBounded = new_memory_limiter-IsBounded 3 60

granted_bound_example :
    granted "acme" history fresh
    ≤ elim (lookup "acme" fresh.windows) [ none ↦ fresh.limit | some w ↦ 2 * fresh.limit ]
unfolding new_memory_limiter
granted_bound_example =
    granted_bound "acme" 5 65 history fresh fresh-IsBounded (omega arith) (omega arith)
