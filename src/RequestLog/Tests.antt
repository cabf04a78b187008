-- ===== src/RequestLog/Tests.antt =====
-- Runs of the buffer of internal/admin/requestlog.go, and the theorems at them.
use aigateway.Prelude.{◌≡◌, ◌==◌, String, List, [], ◌∷◌, min, length, take, if◌then◌else◌}
use aigateway.RequestLog.{RequestEntry, zero_entry, new_request_log, recent}
use aigateway.RequestLog.History.{after, capacity, recent_exact}

abbrev entry : String → String → RequestEntry
entry id policy = record zero_entry { request_id = id; policy_hit = policy }

-- The latest first, in a buffer of three.
abbrev requests : List RequestEntry
requests = entry "r4" "" ∷ entry "r3" "pii" ∷ entry "r2" "" ∷ entry "r1" "jailbreak" ∷ []

recent_exact_example :
    let held = min (length requests) (capacity 3) in
    recent 2 (after requests (new_request_log 3))
    ≡ take (if 2 == 0 then held else min 2 held) requests
recent_exact_example = recent_exact 3 2 requests
