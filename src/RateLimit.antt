-- ===== src/RateLimit.antt =====
-- internal/ratelimit/memory.go: the fixed-window limiter. A clock reading is an argument of each
-- call (nanoseconds); `Allow` reads the clock a second time after the window was looked up, so a
-- call has two readings. Counts and limits are natural numbers: a sum that wraps needs a limit
-- within one cost of 2^63.
pub mod Limits
pub mod Sliding
pub mod Redis
pub mod Counter
pub mod Shared
mod SharedTests
mod Tests
use aigateway.Prelude.{ℕ, ◌+◌, String, Bool, true, false, none, some, [], ltb, if◌then◌else◌}
use aigateway.Prelude.Dict.{Dict, lookup, insert}

-- The window of one key: what was admitted since it began, and when it ends.
pub record Window : Type 0 where
  pub count : ℕ
  pub reset_at : ℕ

pub record MemoryLimiter : Type 0 where
  pub windows : Dict Window
  pub limit : ℕ
  pub period : ℕ

unfoldable pub new_memory_limiter : ℕ → ℕ → MemoryLimiter
new_memory_limiter limit period = record { windows = []; limit = limit; period = period }

-- The window of a key; a missing one is made, with the clock at `t`, and stored.
pub get_or_create : ℕ → String → MemoryLimiter → Window × MemoryLimiter
get_or_create t key m = elim (lookup key m.windows) [
  | some w ↦ (w, m)
  | none ↦
      let w : Window = record { count = 0; reset_at = t + m.period } in
      (w, record m { windows = insert key w m.windows })
]

-- The part of `Allow` under the window's lock, with the clock at `now`.
pub restart : ℕ → ℕ → Window → Window
restart period now w =
    if ltb w.reset_at now then record { count = 0; reset_at = now + period } else w

pub charge : ℕ → ℕ → Window → Bool × Window
charge limit cost w =
    if ltb limit (w.count + cost) then (false, w) else (true, record w { count = w.count + cost })

-- One call: the key, the cost and the two clock readings.
pub record Call : Type 0 where
  pub key : String
  pub cost : ℕ
  pub t : ℕ
  pub now : ℕ

pub allow : Call → MemoryLimiter → Bool × MemoryLimiter
unfolding get_or_create restart charge
allow c m =
    let (w, m') = get_or_create c.t c.key m in
    let (ok, w') = charge m'.limit c.cost (restart m'.period c.now w) in
    (ok, record m' { windows = insert c.key w' m'.windows })
