-- ===== src/Rollout/Types.antt =====
-- internal/rollout/types.go. States are the source's five strings; times and durations are
-- nanoseconds. The error threshold is of an abstract float type `F`.
use aigateway.Prelude.{ℕ, String, Bool, true, false, Option, List}

pub data State : Type 0 where
  pending running paused rolled_back completed : State

abbrev pub is_running : State → Bool
is_running running = true
is_running _ = false

abbrev pub is_paused : State → Bool
is_paused paused = true
is_paused _ = false

-- isActiveState of memory_store.go.
abbrev pub is_active_state : State → Bool
is_active_state pending = true
is_active_state running = true
is_active_state paused = true
is_active_state _ = false

module _ (F : Type 0) where
  pub record Rollout : Type 0 where
    pub id : String
    pub route_model : String
    pub baseline_providers : List String
    pub canary_provider : String
    pub stages : List ℕ
    pub current_stage : ℕ
    pub current_percentage : ℕ
    pub state : State
    pub observation_window : ℕ
    pub error_threshold : F
    pub latency_p95_threshold : ℕ
    pub stage_started_at : ℕ
    pub created_at : ℕ
    pub updated_at : ℕ
    pub completed_at : Option ℕ
    pub rollback_reason : String

  pub record HealthMetrics : Type 0 where
    pub error_rate : F
    pub p95_latency_ms : ℕ
    pub requests : ℕ

  pub record RolloutMetrics : Type 0 where
    pub baseline : HealthMetrics
    pub canary : HealthMetrics
