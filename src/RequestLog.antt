-- ===== src/RequestLog.antt =====
-- internal/admin/requestlog.go: the ring buffer of recent requests. Sizes and positions are
-- natural numbers; a size or a count that is not positive is 0 here. Times are nanoseconds.
pub mod History
pub mod Violations
mod Tests
use aigateway.Prelude.{
  ℕ, zero, suc, ◌+◌, ◌-◌, ◌%◌, String, Bool, false, ◌||◌, List, [], ◌∷◌, reverse, ltb, leb, ◌==◌,
  if◌then◌else◌, str_eq, get_or, set, replicate,
}

pub record RequestEntry : Type 0 where
  pub timestamp : ℕ
  pub request_id : String
  pub tenant_id : String
  pub model : String
  pub provider : String
  pub region : String
  pub status : ℕ
  pub latency_ms : ℕ
  pub tokens : ℕ
  pub cached : Bool
  pub policy_hit : String

-- The zero value, with which the buffer is made.
abbrev pub zero_entry : RequestEntry
zero_entry = record {
  timestamp = 0;
  request_id = "";
  tenant_id = "";
  model = "";
  provider = "";
  region = "";
  status = 0;
  latency_ms = 0;
  tokens = 0;
  cached = false;
  policy_hit = "";
}

pub record RequestLog : Type 0 where
  pub entries : List RequestEntry
  pub max_size : ℕ
  pub pos : ℕ
  pub count : ℕ

unfoldable pub new_request_log : ℕ → RequestLog
new_request_log max_size =
    let n = if max_size == 0 then 200 else max_size in
    record { entries = replicate n zero_entry; max_size = n; pos = 0; count = 0 }

unfoldable pub add : RequestEntry → RequestLog → RequestLog
add entry rl = record rl {
  entries = set rl.entries rl.pos entry;
  pos = (rl.pos + 1) % rl.max_size;
  count = if ltb rl.count rl.max_size then rl.count + 1 else rl.count;
}

-- The loop of `Recent`: the entries from `start + i` on, `left` of them.
collect : RequestLog → ℕ → ℕ → ℕ → List RequestEntry
collect rl start i zero = []
collect rl start i (suc left) =
    get_or rl.entries ((start + i) % rl.max_size) zero_entry ∷ collect rl start (i + 1) left

unfoldable pub recent : ℕ → RequestLog → List RequestEntry
unfolding collect
recent n rl =
    let n' = if n == 0 || ltb rl.count n then rl.count else n in
    let start = (rl.pos + rl.max_size - n') % rl.max_size in reverse (collect rl start 0 n')

-- The loop of `RecentViolations`, with the number of violations found so far.
violations : ℕ → ℕ → List RequestEntry → List RequestEntry
violations n found [] = []
violations n found (e ∷ es) =
    let stop : List RequestEntry = e ∷ [] in
    let more = e ∷ violations n (found + 1) es in
    let skip = violations n found es in
    if str_eq e.policy_hit "" then skip else if leb n (found + 1) then stop else more

unfoldable pub recent_violations : ℕ → RequestLog → List RequestEntry
unfolding violations
recent_violations n rl = violations n 0 (recent rl.count rl)
