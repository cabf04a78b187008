-- ===== src/Rollout/Evaluator.antt =====
-- internal/rollout/evaluator.go. The float type, the sort of the latencies and the formatted
-- reasons are parameters; the constant 0.95 is the quotient 95 / 100, which rounds to it. `Evaluate`
-- reads the clock twice.
use aigateway.Prelude.{
  ℕ, ◌+◌, ◌-◌, String, Bool, List, [], ◌∷◌, ◌||◌, not, length, map, keep, get_or, ltb, leb,
  if◌then◌else◌, str_eq,
}
use aigateway.Float.{Float64}
use aigateway.RequestLog.{RequestEntry}
use aigateway.Rollout.Types.{Rollout, HealthMetrics, RolloutMetrics, is_running}

pub data Decision : Type 0 where
  wait promote rollback : Decision

-- What the evaluator takes from the standard library.
pub record Library (fl : Float64) : Type 0 where
  pub sort_ints : List ℕ → List ℕ
  pub error_rate_text : fl.F → fl.F → String
  pub latency_text : ℕ → ℕ → String

pub record Evaluation (F : Type 0) : Type 0 where
  pub decision : Decision
  pub reason : String
  pub metrics : RolloutMetrics F

abbrev pub min_requests_for_decision : ℕ
min_requests_for_decision = 10

module _ (fl : Float64) (lib : Library fl) where
  open fl use {F, of_int, to_int, mul, div, lt}

  abbrev pub zero_health : HealthMetrics F
  zero_health = record { error_rate = of_int 0; p95_latency_ms = 0; requests = 0 }

  abbrev pub is_server_error : RequestEntry → Bool
  is_server_error e = leb 500 e.status

  -- The index of the 95th percentile among `n` latencies, kept in range.
  unfoldable pub p95_index : ℕ → ℕ
  p95_index n =
      let i = to_int (mul (of_int n) (div (of_int 95) (of_int 100))) in if leb n i then n - 1 else i

  unfoldable pub calculate_health : List RequestEntry → HealthMetrics F
  unfolding p95_index
  calculate_health [] = zero_health
  calculate_health (e ∷ es) =
      let entries = e ∷ es in
      let errors = length (keep is_server_error entries) in
      let latencies = lib.sort_ints (map (λ x. x.latency_ms) entries) in
      record {
        error_rate = mul (div (of_int errors) (of_int (length entries))) (of_int 100);
        p95_latency_ms = get_or latencies (p95_index (length latencies)) 0;
        requests = length entries;
      }

  -- The requests for the model inside the window, at the second reading of the clock.
  abbrev pub in_window : ℕ → Rollout F → RequestEntry → Bool
  in_window now r e =
      not (ltb (e.timestamp + r.observation_window) now || not (str_eq e.model r.route_model))

  abbrev pub is_canary : Rollout F → RequestEntry → Bool
  is_canary r e = str_eq e.provider r.canary_provider

  unfoldable pub metrics_of : ℕ → List RequestEntry → Rollout F → RolloutMetrics F
  unfolding calculate_health
  metrics_of now entries r =
      let seen = keep (in_window now r) entries in
      record {
        baseline = calculate_health (keep (λ e. not (is_canary r e)) seen);
        canary = calculate_health (keep (is_canary r) seen);
      }

  unfoldable pub no_metrics : RolloutMetrics F
  no_metrics = record { baseline = zero_health; canary = zero_health }

  unfoldable pub judge : Rollout F → RolloutMetrics F → Evaluation F
  judge r m =
      if ltb m.canary.requests min_requests_for_decision
      then (record { decision = wait; reason = "insufficient canary requests"; metrics = m })
      else if lt r.error_threshold m.canary.error_rate
      then (record {
        decision = rollback;
        reason = lib.error_rate_text m.canary.error_rate r.error_threshold;
        metrics = m;
      })
      else if ltb r.latency_p95_threshold m.canary.p95_latency_ms
      then (record {
        decision = rollback;
        reason = lib.latency_text m.canary.p95_latency_ms r.latency_p95_threshold;
        metrics = m;
      })
      else (record { decision = promote; reason = "canary healthy"; metrics = m })

  unfoldable pub evaluate : ℕ → ℕ → List RequestEntry → Rollout F → Evaluation F
  unfolding metrics_of no_metrics judge
  evaluate since now entries r =
      if not (is_running r.state)
      then (record { decision = wait; reason = "rollout not running"; metrics = no_metrics })
      else if ltb since (r.stage_started_at + r.observation_window)
      then (record {
        decision = wait;
        reason = "observation window not elapsed";
        metrics = no_metrics;
      })
      else judge r (metrics_of now entries r)
