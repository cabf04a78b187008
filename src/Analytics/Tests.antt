-- ===== src/Analytics/Tests.antt =====
-- Runs of the time series of internal/analytics/collector.go, and the theorems at them.
use aigateway.Prelude.{ℕ, List, [], ◌∷◌}
use aigateway.Analytics.{DataPoint, Sorting}

-- A list is sorted already, where each minute has points of rising latency.
abbrev in_order : Sorting
in_order = record { sorted = λ ns. ns }

abbrev point : ℕ → ℕ → DataPoint ℕ
point minute latency_ms = record {
  tenant_id = "acme";
  model = "gpt-4o";
  provider = "openai";
  status_code = 200;
  latency_ms = latency_ms;
  tokens = 10;
  estimated_cost = 0;
  timestamp = minute;
}

-- Three points in two minutes, the latest first.
abbrev points : List (DataPoint ℕ)
points = point 60_000_000_001 30 ∷ point 60_000_000_000 20 ∷ point 1 10 ∷ []
