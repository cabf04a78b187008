-- ===== src/Rollout/Race.antt =====
-- internal/rollout/manager.go: the background loop works on copies that it took from `List`, and
-- the manager holds no lock from the read of a rollout to its update.
use aigateway.Prelude.{ℕ, ◌+◌, ◌<◌, ◌≡◌, ap, ◌∙◌, String, some, arith, length, eq_iff, get_or}
use aigateway.Prelude.Dict.{lookup, insert, lookup-insert}
use aigateway.Float.{Float64}
use aigateway.Rollout.Types.{running, Rollout}
use aigateway.Rollout.Store.{MemoryStore, get, update}
use aigateway.Rollout.Evaluator.{Decision, Library, evaluate}
use aigateway.Rollout.Manager.{
  ok, Moment, rollback_rollout, rolled_back_at, promoted_at, try_update, settle,
}
use aigateway.Rollout.Progress.{stays}

module _ {F : Type 0} where
  -- `Update` does not look at what it overwrites.
  try_update-overwrites :
      (q x : Rollout F) (k : String) (s : MemoryStore F)
      → q.id ≡ k
      → lookup k s ≡ some x
      → lookup k (try_update q s) ≡ some q
  unfolding try_update update
  try_update-overwrites q x k s same held =
      ground (arith, ap (λ j. lookup j s) same, eq_iff q.id k, lookup-insert q.id k q s)

  id-promoted_at : (now : ℕ) (r : Rollout F) → (promoted_at now r).id ≡ r.id
  unfolding promoted_at
  id-promoted_at now r = ground arith

module _ (fl : Float64) (lib : Library fl) where
  open fl use {F}

  -- If the operator rolls a rollout back after the loop has taken its copy, and the loop then
  -- promotes, the rollback is lost: the store holds the promoted copy, which before the last
  -- stage is running, with the share of the next stage.
  pub rollback_lost :
      (now : ℕ) (m : Moment) (r : Rollout F) (s s' : MemoryStore F)
      → lookup r.id s ≡ some r
      → r.state ≡ running
      → rollback_rollout now r.id s ≡ ok s'
      → (evaluate fl lib m.since m.now m.entries r).decision ≡ Decision.promote
      → r.current_stage + 1 < length r.stages
      → (lookup r.id s' ≡ some (rolled_back_at now "manual rollback" r))
        × (lookup r.id (settle fl lib m r s') ≡ some (promoted_at m.acted r))
        × ((promoted_at m.acted r).state ≡ running)
        × ((promoted_at m.acted r).current_percentage ≡ get_or r.stages (r.current_stage + 1) 0)
  unfolding rollback_rollout settle update get
  rollback_lost now m r s s' found live done decided more =
      let back = rolled_back_at now "manual rollback" r in
      let e : s' ≡ insert back.id back s = ground arith in
      let held : lookup r.id s' ≡ some back =
        ap (lookup r.id) e
        ∙ (unfold rolled_back_at in
            (lookup-insert r.id r.id _ s ∙ ground (arith, eq_iff r.id r.id))) in
      let over =
        try_update-overwrites (promoted_at m.acted r) back r.id s' (id-promoted_at m.acted r)
          held in
      let (on, _, _, share) = stays m.acted r live more in (held, ground arith, on, share)
