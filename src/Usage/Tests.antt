-- ===== src/Usage/Tests.antt =====
-- Runs of the usage store of internal/usage, and the theorem at them. Costs are whole numbers here.
use aigateway.Prelude.{ℕ, ◌+◌, String, List, [], ◌∷◌}
use aigateway.Usage.Totals.{Answered}

abbrev answer_of : String → String → ℕ → Answered
answer_of tenant model tokens = record {
  tenant_id = tenant;
  model = model;
  usage = record { prompt_tokens = 10; completion_tokens = tokens; total_tokens = 10 + tokens };
}

abbrev answers : List Answered
answers =
    answer_of "acme" "gpt-4o" 30 ∷ answer_of "zeta" "gpt-4o" 5 ∷ answer_of "acme" "llama3" 7 ∷ []
