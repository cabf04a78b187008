-- ===== src/Rollout.antt =====
-- internal/rollout: canary rollouts.
pub mod AdminAdapter
pub mod Types
pub mod Store
pub mod Evaluator
pub mod Manager
pub mod Lifecycle
pub mod Change
pub mod Refinement
pub mod Background
pub mod Sessions
pub mod Progress
pub mod Race
pub mod Health
mod Tests
