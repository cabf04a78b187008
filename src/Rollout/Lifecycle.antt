-- ===== src/Rollout/Lifecycle.antt =====
-- internal/rollout: the life of a rollout as a step relation, and what each step keeps.
use aigateway.Prelude.{
  ℕ, ◌+◌, ◌≤◌, ◌<◌, ◌≡◌, ◌⊎◌, String, true, false, none, some, arith, length, get_or,
}
use aigateway.Rollout.Types.{running, paused, rolled_back, completed, is_active_state, Rollout}
use aigateway.Rollout.Manager.{paused_at, resumed_at, rolled_back_at, promoted_at}

module _ {F : Type 0} where
  -- What may happen to a rollout.
  pub data Move (r : Rollout F) : Rollout F → Type 0 where
    pauses : (now : ℕ) → r.state ≡ running → Move r (paused_at now r)
    resumes : (now : ℕ) → r.state ≡ paused → Move r (resumed_at now r)
    rolls_back :
        (now : ℕ) (reason : String)
        → (r.state ≡ running) ⊎ (r.state ≡ paused)
        → Move r (rolled_back_at now reason r)
    promotes : (now : ℕ) → r.state ≡ running → Move r (promoted_at now r)

  -- A rollout has ended.
  abbrev pub IsOver : Rollout F → Type 0
  IsOver r = (r.state ≡ rolled_back) ⊎ (r.state ≡ completed)

  -- The share of the canary is that of the current stage, which exists; it is 0 after a rollback.
  -- The time of completion is set exactly when the rollout is over.
  pub record IsSound (r : Rollout F) : Type 0 where
    pub in_range : r.current_stage < length r.stages
    pub share :
        r.current_percentage
        ≡ elim r.state [ rolled_back ↦ 0 | _ ↦ get_or r.stages r.current_stage 0 ]
    pub ended : elim r.completed_at [ none ↦ true | some _ ↦ false ] ≡ is_active_state r.state

  pub Move-IsSound : {r q : Rollout F} → Move r q → IsSound r → IsSound q
  unfolding paused_at resumed_at rolled_back_at promoted_at
  Move-IsSound (pauses now h) v = ground arith
  Move-IsSound (resumes now h) v = ground arith
  Move-IsSound (rolls_back now reason h) v = ground arith
  Move-IsSound (promotes now h) v = ground arith

  -- No move leaves an ended rollout, changes what was asked for, or goes back a stage.
  pub Move-keeps :
      {r q : Rollout F}
      → Move r q
      → (IsOver r → ⊥)
        × (q.id ≡ r.id)
        × (q.route_model ≡ r.route_model)
        × (q.canary_provider ≡ r.canary_provider)
        × (q.stages ≡ r.stages)
        × (r.current_stage ≤ q.current_stage)
        × (q.current_stage ≤ r.current_stage + 1)
        × (is_active_state r.state ≡ true)
  unfolding paused_at resumed_at rolled_back_at promoted_at
  Move-keeps (pauses now h) = ground arith
  Move-keeps (resumes now h) = ground arith
  Move-keeps (rolls_back now reason h) = ground arith
  Move-keeps (promotes now h) = ground arith
