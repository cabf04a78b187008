-- ===== src/RateLimit/Redis.antt =====
-- internal/ratelimit/redis.go: the limiter whose counters stand in Redis. The three commands that its
-- script uses are a parameter, with the laws that Redis documents. A call carries the clock of the
-- server, in nanoseconds; the script runs as one step. The connection may fail, before the server has run
-- the script or after. Counts and limits are
-- natural numbers.
use Prim.Native.String.{◌++◌}
use aigateway.Prelude.{
  ◌≡◌, ◌≢◌, ℕ, ◌+◌, ◌*◌, ◌/◌, ◌^◌, ◌≤◌, ◌<◌, String, Bool, Option, none, some, ltb, ◌==◌, str_eq,
  if◌then◌else◌,
}
use aigateway.Prelude.Results.{Result, ok, err, panics}

abbrev pub second : ℕ
second = 10 ^ 9

-- GET of a number, SET with EX (seconds), and INCRBY, at a time.
pub record Redis : Type 1 where
  pub S : Type 0
  pub get : ℕ → String → S → Option ℕ
  pub set_ex : ℕ → String → ℕ → ℕ → S → S
  pub incr_by : ℕ → String → ℕ → S → S

abbrev pub plus : ℕ → Option ℕ → Option ℕ
plus n none = none
plus n (some v) = some (v + n)

-- A key that is set for some seconds has the value until they are over; INCRBY keeps the time of a key that is
-- there; no command touches another key.
pub record IsRedis (R : Redis) : Type 0 where
  pub get-set_ex :
      (now t : ℕ) (k j : String) (v seconds : ℕ) (s : R.S)
      → now ≤ t
      → 0 < seconds
      → R.get t j (R.set_ex now k v seconds s) ≡ (
          if str_eq k j
          then (if ltb t (now + seconds * second) then some v else none)
          else R.get t j s)
  pub get-incr_by :
      (now t : ℕ) (k j : String) (n : ℕ) (s : R.S)
      → now ≤ t
      → R.get now k s ≢ none
      → R.get t j (R.incr_by now k n s) ≡ (if str_eq k j then plus n (R.get t j s) else R.get t j s)

pub record RedisLimiter : Type 0 where
  pub limit : ℕ
  pub period : ℕ

-- `ping` is the answer of the server when the connection is made.
unfoldable pub new_redis_limiter : Result (Unit {0}) → ℕ → ℕ → Result RedisLimiter
new_redis_limiter (ok u) limit period = ok record { limit = limit; period = period }
new_redis_limiter (err e) limit period = err ("redis connection failed: " ++ e)
new_redis_limiter panics limit period = panics

-- An error of the client, and whether the server had run the script before it.
pub record EvalError : Type 0 where
  pub text : String
  pub ran : Bool

-- One call: its key, its cost, the time, and the error if there is one.
pub record Call : Type 0 where
  pub key : String
  pub cost : ℕ
  pub now : ℕ
  pub error : Option EvalError

abbrev pub redis_key : String → String
redis_key key = "ratelimit:" ++ key

abbrev pub or_zero : Option ℕ → ℕ
or_zero none = 0
or_zero (some v) = v

module _ (R : Redis) where
  -- luaScript, with what `current` is
  abbrev pub run_script : ℕ → String → ℕ → ℕ → ℕ → ℕ → R.S → ℕ × R.S
  run_script now key limit cost period current s =
      if ltb limit (current + cost)
      then (0, s)
      else if current == 0
      then (1, R.set_ex now key cost period s)
      else (1, R.incr_by now key cost s)

  unfoldable pub lua_script : ℕ → String → ℕ → ℕ → ℕ → R.S → ℕ × R.S
  lua_script now key limit cost period s =
      run_script now key limit cost period (or_zero (R.get now key s)) s

  abbrev pub granted_by : Option EvalError → ℕ × R.S → R.S → Result Bool × R.S
  granted_by none (result, s') s = (ok (result == 1), s')
  granted_by (some e) (result, s') s = (err ("redis eval: " ++ e.text), if e.ran then s' else s)

  unfoldable pub allow : RedisLimiter → Call → R.S → Result Bool × R.S
  unfolding lua_script
  allow r c s =
      granted_by c.error (lua_script c.now (redis_key c.key) r.limit c.cost (r.period / second) s) s
