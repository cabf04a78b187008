-- ===== src/Analytics/Alerts/Tests.antt =====
-- Runs of the alert manager, and the theorems at them.
use aigateway.Prelude.{◌≡◌, refl, ℕ, none, List, [], ◌∷◌}
use aigateway.Prelude.Dict.{lookup, IsRange}
use aigateway.Analytics.Alerts.{Alert, AlertManager, is_alerted, process_alerts}
use aigateway.Analytics.Alerts.Lifecycle.{normal_for, next, status, process_alerts-next}

abbrev errors : Alert ℕ
errors = record {
  id = "a1";
  severity = "critical";
  type = "static_threshold";
  dimension = "global";
  metric = "error_rate";
  value = 30;
  threshold = 20;
  message = "global error rate 30.0% exceeds threshold 20.0%";
  state = "active";
  created_at = 1;
  resolved_at = none;
}

-- The alert is active and has been normal for a round.
abbrev manager : AlertManager ℕ
manager = record {
  active = ("global:error_rate", errors) ∷ [];
  history = [];
  max_history = 500;
  webhook = none;
  normal_counters = ("global:error_rate", 1) ∷ [];
  resolve_after = 5;
}

straight : IsRange {V = Alert ℕ} (λ m. m)
straight = record { once = λ m h. h; same = λ m k h. refl }

normal_once : status "global:error_rate" manager ≡ normal_for 1
unfolding status lookup
normal_once = refl

process_alerts-next_example :
    status "global:error_rate" (process_alerts (λ m. m) 9 (errors ∷ []) manager)
    ≡ next 5 (is_alerted (errors ∷ []) "global:error_rate") (status "global:error_rate" manager)
unfolding lookup
process_alerts-next_example =
    process_alerts-next (λ m. m) 9 (errors ∷ []) manager "global:error_rate" straight (refl, tt)

abbrev quiet : List (ℕ × List (Alert ℕ))
quiet = (2, []) ∷ (3, []) ∷ (4, []) ∷ (5, []) ∷ []
